-- ===== src/Retry/Ends.antt =====
-- How the loop over the attempts ends.
use icedr.Prelude.{
  ℕ, zero, suc, ◌+◌, ◌≤◌, ◌≡◌, refl, inl, inr, Bool, true, false, not, ◌&&◌, ◌||◌, Option, some, [],
  ◌∷◌, ◌==◌, leb, length, all, Bool-cases, arith,
}
use icedr.Prisma.{Outcome, resolved, thrown, Action}
use icedr.Retry.{
  serializable_transaction_max_attempts, resolve_equal_jitter_delay, Retried, attempt_ended,
  retry_loop, retry_prisma_serializable_transaction,
}

delay-bounds :
    (attempt random_value : ℕ)
    → 1 ≤ attempt
    → attempt ≤ 4
    → (5 ≤ resolve_equal_jitter_delay attempt random_value)
      × (resolve_equal_jitter_delay attempt random_value ≤ 80)
unfolding resolve_equal_jitter_delay
delay-bounds zero random_value l u = absurd (omega arith)
delay-bounds (suc zero) random_value l u = (omega arith, omega arith)
delay-bounds (suc (suc zero)) random_value l u = (omega arith, omega arith)
delay-bounds (suc (suc (suc zero))) random_value l u = (omega arith, omega arith)
delay-bounds (suc (suc (suc (suc zero)))) random_value l u = (omega arith, omega arith)
delay-bounds (suc (suc (suc (suc (suc n))))) random_value l u = absurd (omega arith)

module _ {Db E A : Type 0} (is_conflict is_retryable_error : E → Bool) (random : ℕ → ℕ)
    (meanwhile : ℕ → Db → Db) where
  -- The error of a last attempt is one for which there would have been another.
  abbrev pub gives_up : Outcome E A → Bool
  gives_up (resolved a) = false
  gives_up (thrown error) = is_conflict error || is_retryable_error error

  module _ (P : Db → Type 0) where
    abbrev pub EndsFrom : ℕ → Option (Retried Db E A) → Type 0
    EndsFrom attempt result =
        (retried : Retried Db E A) × (result ≡ some retried)
        × (length retried.delays + attempt ≤ serializable_transaction_max_attempts)
        × (all (λ delay. leb 5 delay && leb delay 80) retried.delays ≡ true)
        × (not (gives_up retried.outcome)
              || (length retried.delays + attempt == serializable_transaction_max_attempts)
            ≡ true)
        × P retried.database

    attempt_ended-EndsFrom :
        (attempt : ℕ) (rest : Db → Option (Retried Db E A)) (p : Outcome E A × Db)
        → 1 ≤ attempt
        → attempt ≤ 5
        → P p.1
        → (attempt ≤ 4 → EndsFrom (attempt + 1) (rest (meanwhile attempt p.1)))
        → EndsFrom attempt
            (attempt_ended is_conflict is_retryable_error random meanwhile attempt rest p)
    unfolding attempt_ended
    attempt_ended-EndsFrom attempt rest (resolved a, db) l u h next = (
      record { outcome = resolved a; database = db; delays = [] },
      refl,
      omega arith,
      refl,
      refl,
      h,
    )
    attempt_ended-EndsFrom attempt rest (thrown error, db) l u h next =
        elim (Bool-cases (
          not (is_conflict error || is_retryable_error error)
          || leb serializable_transaction_max_attempts attempt)) [
            | inl e ↦ rw e (
              record { outcome = thrown error; database = db; delays = [] },
              refl,
              omega arith,
              refl,
              ground (arith, e),
              h,
            )
            | inr e ↦
                let early : attempt ≤ 4 = ground (arith, e) in
                let (retried, found, fewer, within, last, kept) = next early in
                let delay = resolve_equal_jitter_delay attempt (random attempt) in
                let bounds = delay-bounds attempt (random attempt) l early in
                rw (e, found)
                  (
                    record retried { delays = delay ∷ retried.delays },
                    refl,
                    omega (arith, fewer),
                    ground (arith, within, bounds.0, bounds.1),
                    ground (arith, last),
                    kept,
                  )
          ]

    module _ (operation : Action Db E A) (keeps : (db : Db) → P db → P (operation db).1)
        (others : (attempt : ℕ) (db : Db) → P db → P (meanwhile attempt db)) where
      retry_loop-EndsFrom :
          (left attempt : ℕ) (db : Db)
          → left + attempt ≡ 6
          → 1 ≤ attempt
          → attempt ≤ 5
          → P db
          → EndsFrom attempt
              (retry_loop is_conflict is_retryable_error random meanwhile operation left attempt db)
      unfolding retry_loop
      retry_loop-EndsFrom zero attempt db e l u h = absurd (omega arith)
      retry_loop-EndsFrom (suc left) attempt db e l u h =
          attempt_ended-EndsFrom attempt
            (retry_loop is_conflict is_retryable_error random meanwhile operation left
              (attempt + 1))
            (operation db) l u (keeps db h)
            (λ early.
              retry_loop-EndsFrom left (attempt + 1) (meanwhile attempt (operation db).1)
                (omega arith) (omega arith) (omega arith)
                (others attempt (operation db).1 (keeps db h)))

-- The loop ends, after at most five attempts, with a wait of 5 to 80 milliseconds before each but the
-- first; it throws an error that calls for another attempt only after the fifth; and what every
-- attempt and all other requests keep of the database holds at the end.
pub retry-EndsFrom :
    {Db E A : Type 0} (is_conflict is_retryable_error : E → Bool) (random : ℕ → ℕ)
    (meanwhile : ℕ → Db → Db) (P : Db → Type 0) (operation : Action Db E A) (db : Db)
    → ((d : Db) → P d → P (operation d).1)
    → ((attempt : ℕ) (d : Db) → P d → P (meanwhile attempt d))
    → P db
    → EndsFrom is_conflict is_retryable_error random meanwhile P 1 (
        retry_prisma_serializable_transaction is_conflict is_retryable_error random meanwhile
          operation db)
unfolding retry_prisma_serializable_transaction
retry-EndsFrom is_conflict is_retryable_error random meanwhile P operation db keeps others h =
    retry_loop-EndsFrom is_conflict is_retryable_error random meanwhile P operation keeps others 5 1
      db refl (omega arith) (omega arith) h
