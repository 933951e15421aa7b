-- ===== src/Shares/RateLimit/Decides.antt =====
-- `consume` of share-rate-limit.repository.ts against the rule that it implements, where no other
-- request writes.
use icedr.Prelude.{
  ℕ, suc, ◌<◌, ◌≡◌, refl, String, true, Option, none, some, [], ◌∷◌, if◌then◌else◌, ltb, arith,
  eq_refl,
}
use icedr.Prisma.{Client, IsPrisma, by_in_memory, in_memory, Outcome, resolved, thrown}
use icedr.Shares.RateLimit.{
  Bucket, BucketWindow, RateLimitError, RateLimitDb, in_window, has_key, counted, restarted,
  new_bucket, exceeded_error, find_bucket, update_buckets, create_bucket, restart, read_bucket,
  after_increment, consume_attempt, consume_attempts, consume,
}

-- The rule: a request is admitted if there is no bucket, if its window is over, or if it has counted
-- fewer requests than the limit; otherwise it must wait.
unfoldable pub decide :
    BucketWindow → ℕ → String → Option Bucket → Outcome RateLimitError (Unit {0}) × Option Bucket
decide input limit id none =
    (resolved tt, some (new_bucket id input.action input.scope_hash input.now))
decide input limit id (some row) =
    if in_window input row.window_started_at
    then (if ltb row.count limit then (resolved tt, some (counted input.now row)) else (
      thrown (exceeded_error row.window_started_at input.window_seconds input.now),
      some row,
    ))
    else (resolved tt, some (restarted input.now row))

-- The table with that bucket, or with none.
abbrev pub table : Option Bucket → RateLimitDb
table none = []
table (some row) = row ∷ []

abbrev pub on_table :
    Outcome RateLimitError (Unit {0}) × Option Bucket
    → Outcome RateLimitError (Unit {0}) × RateLimitDb
on_table (outcome, bucket) = (outcome, table bucket)

abbrev pub KeyFits : BucketWindow → Option Bucket → Type 0
KeyFits input none = Unit
KeyFits input (some row) = has_key input.action input.scope_hash row ≡ true

abbrev quiet : ℕ → RateLimitDb → RateLimitDb
quiet left db = db

module _ (draw_id : RateLimitDb → String) (input : BucketWindow) (limit : ℕ) where
  one_attempt :
      (left : ℕ) (bucket : Option Bucket)
      → KeyFits input bucket
      → consume_attempts in_memory draw_id input limit quiet quiet (suc left) (table bucket)
        ≡ on_table (decide input limit (draw_id (table bucket)) bucket)
  unfolding consume_attempts consume_attempt update_buckets after_increment find_bucket read_bucket
      restart create_bucket decide
  one_attempt left none h = refl
  one_attempt left (some row) h = ground (arith, eq_refl row.id)

  quiet-consume :
      (bucket : Option Bucket)
      → 0 < limit
      → KeyFits input bucket
      → consume in_memory draw_id input limit quiet quiet (table bucket)
        ≡ on_table (decide input limit (draw_id (table bucket)) bucket)
  unfolding consume
  quiet-consume bucket l h = ground (arith, one_attempt 7 bucket h)

pub consume-eq-decide :
    (prisma : Client)
    → IsPrisma prisma
    → (draw_id : RateLimitDb → String) (input : BucketWindow) (limit : ℕ) (bucket : Option Bucket)
    → 0 < limit
    → KeyFits input bucket
    → consume prisma draw_id input limit (λ _ db. db) (λ _ db. db) (table bucket)
      ≡ on_table (decide input limit (draw_id (table bucket)) bucket)
consume-eq-decide prisma laws draw_id input limit bucket l h =
    by_in_memory
      (λ c.
        consume c draw_id input limit (λ _ db. db) (λ _ db. db) (table bucket)
        ≡ on_table (decide input limit (draw_id (table bucket)) bucket))
      laws (quiet-consume draw_id input limit bucket l h)
