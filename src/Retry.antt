-- ===== src/Retry.antt =====
-- backend/src/common/database/serializable-transaction-retry.ts: an operation is run again after a
-- conflict, up to five times, with a random wait in between. The random numbers are those of
-- Math.random, natural numbers of which 2 ^ 53 make one; `meanwhile` is what other requests write
-- while an attempt waits.
pub mod Ends
mod Examples
use icedr.Prelude.{
  ℕ, zero, suc, ◌+◌, ◌-◌, ◌*◌, ◌/◌, ◌^◌, min, max, Bool, not, ◌||◌, Option, none, some, List, [],
  ◌∷◌, if◌then◌else◌, leb,
}
use icedr.Prisma.{Outcome, resolved, thrown, Action}

abbrev pub serializable_transaction_max_attempts : ℕ
serializable_transaction_max_attempts = 5

abbrev pub retry_base_delay_ms : ℕ
retry_base_delay_ms = 10

abbrev pub retry_max_delay_ms : ℕ
retry_max_delay_ms = 100

abbrev pub retry_upper_bound : ℕ → ℕ
retry_upper_bound retry_number =
    min retry_max_delay_ms (retry_base_delay_ms * 2 ^ max 0 (retry_number - 1))

-- `Math.ceil(upperBound / 2)`
abbrev pub retry_lower_bound : ℕ → ℕ
retry_lower_bound retry_number = (retry_upper_bound retry_number + 1) / 2

-- `1 - Number.EPSILON` is the largest number that is taken.
abbrev pub normalized_random : ℕ → ℕ
normalized_random random_value = min (2 ^ 53 - 2) random_value

unfoldable pub resolve_equal_jitter_delay : (retry_number random_value : ℕ) → ℕ
resolve_equal_jitter_delay retry_number random_value =
    retry_lower_bound retry_number
    + (normalized_random random_value
        * (retry_upper_bound retry_number - retry_lower_bound retry_number + 1))
      / 2 ^ 53

-- What the loop ends with: the last attempt's outcome, the database, and the waits.
pub record Retried (Db E A : Type 0) : Type 0 where
  pub outcome : Outcome E A
  pub database : Db
  pub delays : List ℕ

abbrev pub after_delay : {Db E A : Type 0} → ℕ → Option (Retried Db E A) → Option (Retried Db E A)
after_delay delay none = none
after_delay delay (some retried) = some (record retried { delays = delay ∷ retried.delays })

module _ {Db E A : Type 0} (is_conflict is_retryable_error : E → Bool) (random : ℕ → ℕ)
    (meanwhile : ℕ → Db → Db) where
  -- What follows an attempt: `rest` is the loop from the next one.
  unfoldable pub attempt_ended :
      ℕ → (Db → Option (Retried Db E A)) → Outcome E A × Db → Option (Retried Db E A)
  unfolding resolve_equal_jitter_delay
  attempt_ended attempt rest (resolved a, db) =
      some (record { outcome = resolved a; database = db; delays = [] })
  attempt_ended attempt rest (thrown error, db) =
      let again =
        after_delay (resolve_equal_jitter_delay attempt (random attempt))
          (rest (meanwhile attempt db)) in
      if not (is_conflict error || is_retryable_error error)
        || leb serializable_transaction_max_attempts attempt
      then some (record { outcome = thrown error; database = db; delays = [] })
      else again

  -- The loop, by the attempts left; `none` is no result of the code.
  unfoldable pub retry_loop : Action Db E A → (left attempt : ℕ) → Db → Option (Retried Db E A)
  unfolding attempt_ended
  retry_loop operation zero attempt db = none
  retry_loop operation (suc left) attempt db =
      attempt_ended attempt (retry_loop operation left (attempt + 1)) (operation db)

  unfoldable pub retry_prisma_serializable_transaction :
      Action Db E A → Db → Option (Retried Db E A)
  unfolding retry_loop
  retry_prisma_serializable_transaction operation =
      retry_loop operation serializable_transaction_max_attempts 1
