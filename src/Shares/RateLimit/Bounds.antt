-- ===== src/Shares/RateLimit/Bounds.antt =====
-- What the limit of `consume` bounds: the counts of the buckets, and the requests that are admitted
-- in one window.
use icedr.Prelude.{
  ℕ, zero, suc, ◌<◌, ◌≡◌, refl, inl, inr, String, Bool, true, not, ◌||◌, Option, none, some, List,
  [], ◌∷◌, leb, ◌==◌, all, arith, Bool-cases, find?, map, filter,
}
use icedr.Prisma.{
  Client, IsPrisma, by_in_memory, in_memory, Outcome, resolved, thrown, then_run, update_where,
  return,
}
use icedr.Shares.RateLimit.{
  Bucket, BucketWindow, RateLimitError, RateLimitDb, RateLimitAction, has_key, can_count, counted,
  restarted, same_window, first_count, Attempt, granted, again, find_bucket, update_buckets,
  create_bucket, restart, read_bucket, after_increment, consume_attempt, consume_fails,
  consume_attempts, consume, mutation_attempts,
}

-- No bucket with the key has counted more requests than the limit.
abbrev pub IsBounded : String → String → ℕ → RateLimitDb → Type 0
IsBounded action scope_hash limit db =
    all (λ row. not (has_key action scope_hash row) || leb row.count limit) db ≡ true

module _ {Row : Type 0} (ok test : Row → Bool) (patch : Row → Row) where
  all-update_where :
      ((x : Row) → ok x ≡ true → test x ≡ true → ok (patch x) ≡ true)
      → (xs : List Row) → all ok xs ≡ true
      → all ok (update_where test patch xs) ≡ true
  all-update_where keep [] h = refl
  all-update_where keep (x ∷ xs) h = ground (arith, keep x, all-update_where keep xs)

module _ (draw_id : RateLimitDb → String) (input : BucketWindow) (limit : ℕ)
    (positive : 0 < limit) where
  abbrev Bounded : RateLimitDb → Type 0
  Bounded = IsBounded input.action input.scope_hash limit

  then_run-Bounded :
      {A B : Type 0} (p : Outcome RateLimitError A × RateLimitDb) (f : A → RateLimitAction B)
      → Bounded p.1
      → ((a : A) (db : RateLimitDb) → Bounded db → Bounded (f a db).1)
      → Bounded (then_run p f).1
  then_run-Bounded (resolved a, db) f h k = k a db h
  then_run-Bounded (thrown e, db) f h k = h

  create_bucket-Bounded :
      (db : RateLimitDb) → Bounded db → Bounded (create_bucket in_memory draw_id input db).1
  unfolding create_bucket
  create_bucket-Bounded db h = ground arith

  restart-Bounded :
      (bucket : Option Bucket) (db : RateLimitDb)
      → Bounded db
      → Bounded (restart in_memory draw_id input bucket db).1
  unfolding restart update_buckets
  restart-Bounded none db h = create_bucket-Bounded db h
  restart-Bounded (some current) db h =
      all-update_where
        (λ row. not (has_key input.action input.scope_hash row) || leb row.count limit)
        (same_window current) (restarted input.now) (λ x k t. ground arith) db h

  module _ (meanwhile : RateLimitDb → RateLimitDb)
      (keeps : (db : RateLimitDb) → Bounded db → Bounded (meanwhile db)) where
    read_bucket-Bounded :
        (bucket : Option Bucket) (db : RateLimitDb)
        → Bounded db
        → Bounded (read_bucket in_memory draw_id input limit meanwhile bucket db).1
    unfolding read_bucket
    read_bucket-Bounded none db h = restart-Bounded none (meanwhile db) (keeps db h)
    read_bucket-Bounded (some row) db h =
        ground (arith, restart-Bounded (some row) (meanwhile db) (keeps db h))

    module _ (others : RateLimitDb → RateLimitDb)
        (kept : (db : RateLimitDb) → Bounded db → Bounded (others db)) where
      after_increment-Bounded :
          (attempt : Attempt) (db : RateLimitDb)
          → Bounded db
          → Bounded (after_increment in_memory draw_id input limit others meanwhile attempt db).1
      unfolding after_increment find_bucket
      after_increment-Bounded (granted count) db h = h
      after_increment-Bounded again db h =
          read_bucket-Bounded (find? (has_key input.action input.scope_hash) (others db))
            (others db) (kept db h)

      attempt-Bounded :
          (db : RateLimitDb)
          → Bounded db
          → Bounded (consume_attempt in_memory draw_id input limit others meanwhile db).1
      unfolding consume_attempt update_buckets
      attempt-Bounded db h =
          after_increment-Bounded
            (first_count (map (counted input.now) (filter (can_count input limit) db))) _
            (all-update_where
              (λ row. not (has_key input.action input.scope_hash row) || leb row.count limit)
              (can_count input limit) (counted input.now) (λ x k t. ground arith) db h)

  module _ (others meanwhile : ℕ → RateLimitDb → RateLimitDb)
      (kept : (left : ℕ) (db : RateLimitDb) → Bounded db → Bounded (others left db))
      (keeps : (left : ℕ) (db : RateLimitDb) → Bounded db → Bounded (meanwhile left db)) where
    consume_fails-Bounded :
        (db : RateLimitDb) → Bounded db → Bounded (consume_fails in_memory draw_id input db).1
    unfolding consume_fails find_bucket
    consume_fails-Bounded db h = ground arith

    attempts-Bounded :
        (left : ℕ) (db : RateLimitDb)
        → Bounded db
        → Bounded (consume_attempts in_memory draw_id input limit others meanwhile left db).1
    unfolding consume_attempts
    attempts-Bounded zero db h = consume_fails-Bounded db h
    attempts-Bounded (suc left) db h =
        then_run-Bounded
          (consume_attempt in_memory draw_id input limit (others left) (meanwhile left) db) _
          (attempt-Bounded (meanwhile left) (keeps left) (others left) (kept left) db h)
          (next (attempts-Bounded left))
      where
        next :
            ((d : RateLimitDb)
              → Bounded d
              → Bounded (consume_attempts in_memory draw_id input limit others meanwhile left d).1)
            → (attempt : Attempt) (d : RateLimitDb) → Bounded d
            → Bounded
                (elim attempt as (λ _. RateLimitAction (Unit {0})) [
                  | granted count ↦ return tt
                  | again ↦ consume_attempts in_memory draw_id input limit others meanwhile left
                ]
                  d).1
        next rest (granted count) d k = k
        next rest again d k = rest d k

consume-Bounded :
    (draw_id : RateLimitDb → String) (input : BucketWindow) (limit : ℕ)
    (others meanwhile : ℕ → RateLimitDb → RateLimitDb)
    → ((left : ℕ) (db : RateLimitDb)
        → IsBounded input.action input.scope_hash limit db
        → IsBounded input.action input.scope_hash limit (others left db))
    → ((left : ℕ) (db : RateLimitDb)
        → IsBounded input.action input.scope_hash limit db
        → IsBounded input.action input.scope_hash limit (meanwhile left db))
    → (db : RateLimitDb) → IsBounded input.action input.scope_hash limit db
    → IsBounded input.action input.scope_hash limit
        (consume in_memory draw_id input limit others meanwhile db).1
unfolding consume
consume-Bounded draw_id input limit others meanwhile kept keeps db h =
    elim (Bool-cases (limit == 0)) [
      | inl e ↦ rw e h
      | inr e ↦ rw e (
          attempts-Bounded draw_id input limit (ground arith) others meanwhile kept keeps
            mutation_attempts db h)
    ]

-- Whatever other requests write, as long as that keeps the counts of the key's buckets within the
-- limit, `consume` keeps them within it, at every attempt and in every outcome.
pub consume-IsBounded :
    (prisma : Client)
    → IsPrisma prisma
    → (draw_id : RateLimitDb → String) (input : BucketWindow) (limit : ℕ)
      (others meanwhile : ℕ → RateLimitDb → RateLimitDb)
    → ((left : ℕ) (db : RateLimitDb)
        → IsBounded input.action input.scope_hash limit db
        → IsBounded input.action input.scope_hash limit (others left db))
    → ((left : ℕ) (db : RateLimitDb)
        → IsBounded input.action input.scope_hash limit db
        → IsBounded input.action input.scope_hash limit (meanwhile left db))
    → (db : RateLimitDb) → IsBounded input.action input.scope_hash limit db
    → IsBounded input.action input.scope_hash limit
        (consume prisma draw_id input limit others meanwhile db).1
consume-IsBounded prisma laws draw_id input limit others meanwhile kept keeps db h =
    by_in_memory
      (λ c.
        IsBounded input.action input.scope_hash limit
          (consume c draw_id input limit others meanwhile db).1)
      laws (consume-Bounded draw_id input limit others meanwhile kept keeps db h)
