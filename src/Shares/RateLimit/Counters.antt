-- ===== src/Shares/RateLimit/Counters.antt =====
-- The other operations of share-rate-limit.repository.ts: increment, activate, getRetryAfter, clear
-- and prune.
use icedr.Prelude.{
  ℕ, suc, zero, ◌+◌, ◌-◌, ◌*◌, String, Bool, ◌&&◌, Option, none, some, List, if◌then◌else◌, ltb,
  contains, is_empty,
}
use icedr.Prisma.{Client, resolved, ◌>>=◌, return, throw}
use icedr.Shares.RateLimit.{
  Bucket, BucketWindow, RateLimitDb, RateLimitAction, mutation_attempts, unable_to_increment,
  in_window, has_key, counted, restarted, new_bucket, ceil_seconds, Attempt, granted, again,
  first_count, find_bucket, update_buckets, restart,
}

module _ (prisma : Client) (draw_id : RateLimitDb → String) where
  -- `increment` has no limit: a bucket that is in its window leads to another attempt.
  unfoldable pub read_bucket_again :
      BucketWindow → (RateLimitDb → RateLimitDb) → Option Bucket → RateLimitAction Attempt
  unfolding restart
  read_bucket_again input meanwhile none = λ db. restart prisma draw_id input none (meanwhile db)
  read_bucket_again input meanwhile (some current) =
      if in_window input current.window_started_at
      then return again
      else (λ db. restart prisma draw_id input (some current) (meanwhile db))

  unfoldable pub after_increment_again :
      BucketWindow
      → (others meanwhile : RateLimitDb → RateLimitDb) → Attempt
      → RateLimitAction Attempt
  unfolding find_bucket read_bucket_again
  after_increment_again input others meanwhile (granted count) = return (granted count)
  after_increment_again input others meanwhile again = λ db.
      (do
        current ← find_bucket prisma draw_id input.action input.scope_hash
        read_bucket_again input meanwhile current)
        (others db)

  unfoldable pub increment_attempts :
      BucketWindow → (others meanwhile : ℕ → RateLimitDb → RateLimitDb) → ℕ → RateLimitAction ℕ
  unfolding update_buckets after_increment_again
  increment_attempts input others meanwhile zero = throw unable_to_increment
  increment_attempts input others meanwhile (suc left) = do
    rows ←
        update_buckets prisma draw_id
          (λ row.
            has_key input.action input.scope_hash row && in_window input row.window_started_at)
          (counted input.now)
    attempt ← after_increment_again input (others left) (meanwhile left) (first_count rows)
    elim attempt [
      | granted count ↦ return count
      | again ↦ increment_attempts input others meanwhile left
    ]

  unfoldable pub increment :
      BucketWindow → (others meanwhile : ℕ → RateLimitDb → RateLimitDb) → RateLimitAction ℕ
  unfolding increment_attempts
  increment input others meanwhile = increment_attempts input others meanwhile mutation_attempts

  unfoldable pub activate : String → String → ℕ → RateLimitAction (Unit {0})
  activate action scope_hash now db = (
    resolved tt,
    prisma.upsert Bucket (has_key action scope_hash) (new_bucket (draw_id db) action scope_hash now)
        (restarted now) db,
  )

  abbrev pub retry_seconds : ℕ → ℕ → Option Bucket → ℕ
  retry_seconds duration_seconds now none = 0
  retry_seconds duration_seconds now (some row) =
      ceil_seconds (row.window_started_at + duration_seconds * 1000 - now)

  unfoldable pub get_retry_after : String → String → ℕ → ℕ → RateLimitAction ℕ
  unfolding find_bucket
  get_retry_after action scope_hash duration_seconds now = do
    current ← find_bucket prisma draw_id action scope_hash
    return (retry_seconds duration_seconds now current)

  unfoldable pub clear : List String → List String → RateLimitAction ℕ
  clear actions scope_hashes db =
      let (rows, deleted) =
        prisma.delete_many Bucket
          (λ row. contains actions row.action && contains scope_hashes row.scope_hash) db in
      if is_empty actions
      then (resolved 0, db)
      else if is_empty scope_hashes
      then (resolved 0, db)
      else (resolved deleted, rows)

  -- `starts_with` tells which actions begin with `share:`.
  unfoldable pub prune : (String → Bool) → ℕ → RateLimitAction ℕ
  prune starts_with cutoff db =
      let (rows, deleted) =
        prisma.delete_many Bucket (λ row. starts_with row.action && ltb row.updated_at cutoff) db in
      (resolved deleted, rows)
