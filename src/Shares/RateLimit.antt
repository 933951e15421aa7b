-- ===== src/Shares/RateLimit.antt =====
-- backend/src/modules/shares/share-rate-limit.repository.ts: buckets that count requests in a window
-- of time. The random id of a new bucket is an argument. `others` and `meanwhile` are what other
-- requests write in an attempt: before it reads the bucket, and between that and its next write.
pub mod Counters
pub mod Decides
pub mod Bounds
pub mod Windows
mod Examples
use icedr.Prelude.{
  ℕ, zero, suc, ◌+◌, ◌-◌, ◌*◌, ◌/◌, max, String, Bool, true, false, not, ◌&&◌, Option, none, some,
  List, [], ◌∷◌, if◌then◌else◌, leb, ltb, ◌==◌, str_eq, length, contains, is_empty,
}
use icedr.Prisma.{Client, resolved, Action, ◌>>=◌, ◌>>◌, return, throw}

abbrev pub mutation_attempts : ℕ
mutation_attempts = 8

-- A row of auth_rate_limits, whose action and scope are unique together.
pub record Bucket : Type 0 where
  pub id : String
  pub action : String
  pub scope_hash : String
  pub count : ℕ
  pub window_started_at : ℕ
  pub updated_at : ℕ

pub record BucketWindow : Type 0 where
  pub action : String
  pub scope_hash : String
  pub window_seconds : ℕ
  pub now : ℕ

-- `exceeded` is ShareRateLimitExceededError, with the seconds to wait.
pub data RateLimitError : Type 0 where
  exceeded : ℕ → RateLimitError
  unable_to_update unable_to_increment : RateLimitError

abbrev pub RateLimitDb : Type 0
RateLimitDb = List Bucket

abbrev pub RateLimitAction : Type 0 → Type 0
RateLimitAction A = Action RateLimitDb RateLimitError A

-- `windowStartedAt >= cutoff`, where the cutoff is `now - windowSeconds * 1000`.
abbrev pub in_window : BucketWindow → ℕ → Bool
in_window input started = leb input.now (started + input.window_seconds * 1000)

abbrev pub has_key : String → String → Bucket → Bool
has_key action scope_hash row = str_eq row.action action && str_eq row.scope_hash scope_hash

abbrev pub can_count : BucketWindow → ℕ → Bucket → Bool
can_count input limit row =
    has_key input.action input.scope_hash row
    && in_window input row.window_started_at
    && ltb row.count limit

abbrev pub counted : ℕ → Bucket → Bucket
counted now row = record row { count = row.count + 1; updated_at = now }

abbrev pub same_window : Bucket → Bucket → Bool
same_window current row =
    str_eq row.id current.id && row.window_started_at == current.window_started_at

abbrev pub restarted : ℕ → Bucket → Bucket
restarted now row = record row { count = 1; window_started_at = now; updated_at = now }

-- `createBucket`
abbrev pub new_bucket : String → String → String → ℕ → Bucket
new_bucket id action scope_hash now = record {
  id = id;
  action = action;
  scope_hash = scope_hash;
  count = 1;
  window_started_at = now;
  updated_at = now;
}

-- `Math.ceil(milliseconds / 1000)`, of a difference that is not negative where it matters.
abbrev pub ceil_seconds : ℕ → ℕ
ceil_seconds milliseconds = (milliseconds + 999) / 1000

-- `createExceededError`
unfoldable pub exceeded_error : ℕ → ℕ → ℕ → RateLimitError
exceeded_error started window_seconds now =
    exceeded (max 1 (ceil_seconds (started + window_seconds * 1000 - now)))

-- How an attempt goes on: it is granted with a count, or another attempt follows.
pub data Attempt : Type 0 where
  granted : ℕ → Attempt
  again : Attempt

abbrev pub first_count : List Bucket → Attempt
first_count (row ∷ []) = granted row.count
first_count _ = again

abbrev pub in_window_of : BucketWindow → Option Bucket → Bool
in_window_of input none = false
in_window_of input (some row) = in_window input row.window_started_at

module _ (prisma : Client) (draw_id : RateLimitDb → String) where
  unfoldable pub find_bucket : String → String → RateLimitAction (Option Bucket)
  find_bucket action scope_hash db =
      (resolved (prisma.find_first Bucket (has_key action scope_hash) db), db)

  unfoldable pub update_buckets :
      (Bucket → Bool) → (Bucket → Bucket) → RateLimitAction (List Bucket)
  update_buckets test patch db =
      let (rows, returned) = prisma.update_many_and_return Bucket test patch db in
      (resolved returned, rows)

  -- `create`; a unique conflict leads to another attempt.
  unfoldable pub create_bucket : BucketWindow → RateLimitAction Attempt
  create_bucket input db =
      elim (prisma.create Bucket (has_key input.action input.scope_hash)
        (new_bucket (draw_id db) input.action input.scope_hash input.now) db) [
          | none ↦ (resolved again, db)
          | some rows ↦ (resolved (granted 1), rows)
        ]

  -- What follows an old bucket, or none.
  unfoldable pub restart : BucketWindow → Option Bucket → RateLimitAction Attempt
  unfolding create_bucket update_buckets
  restart input none = create_bucket input
  restart input (some current) = do
    rows ← update_buckets (same_window current) (restarted input.now)
    return (first_count rows)

  -- What follows a bucket that was read after the increment found none.
  unfoldable pub read_bucket :
      BucketWindow → ℕ → (RateLimitDb → RateLimitDb) → Option Bucket → RateLimitAction Attempt
  unfolding restart
  read_bucket input limit meanwhile none = λ db. restart input none (meanwhile db)
  read_bucket input limit meanwhile (some current) =
      if in_window input current.window_started_at
      then (if ltb current.count limit
          then return again
          else throw (exceeded_error current.window_started_at input.window_seconds input.now))
      else (λ db. restart input (some current) (meanwhile db))

  unfoldable pub after_increment :
      BucketWindow
      → ℕ
      → (others meanwhile : RateLimitDb → RateLimitDb) → Attempt
      → RateLimitAction Attempt
  unfolding find_bucket read_bucket
  after_increment input limit others meanwhile (granted count) = return (granted count)
  after_increment input limit others meanwhile again = λ db.
      (do
        current ← find_bucket input.action input.scope_hash
        read_bucket input limit meanwhile current)
        (others db)

  unfoldable pub consume_attempt :
      BucketWindow → ℕ → (others meanwhile : RateLimitDb → RateLimitDb) → RateLimitAction Attempt
  unfolding update_buckets after_increment
  consume_attempt input limit others meanwhile = do
    rows ← update_buckets (can_count input limit) (counted input.now)
    after_increment input limit others meanwhile (first_count rows)

  -- The end of the loop, after its last attempt.
  unfoldable pub consume_fails : BucketWindow → RateLimitAction (Unit {0})
  unfolding find_bucket
  consume_fails input = do
    current ← find_bucket input.action input.scope_hash
    elim current [
      | none ↦ throw unable_to_update
      | some row ↦
          if in_window input row.window_started_at
          then throw (exceeded_error row.window_started_at input.window_seconds input.now)
          else throw unable_to_update
    ]

  -- The attempts that are left; the others' writes depend on how many these are.
  unfoldable pub consume_attempts :
      BucketWindow
      → ℕ
      → (others meanwhile : ℕ → RateLimitDb → RateLimitDb) → ℕ
      → RateLimitAction (Unit {0})
  unfolding consume_attempt consume_fails
  consume_attempts input limit others meanwhile zero = consume_fails input
  consume_attempts input limit others meanwhile (suc left) = do
    attempt ← consume_attempt input limit (others left) (meanwhile left)
    elim attempt [
      | granted count ↦ return tt
      | again ↦ consume_attempts input limit others meanwhile left
    ]

  unfoldable pub consume :
      BucketWindow
      → ℕ
      → (others meanwhile : ℕ → RateLimitDb → RateLimitDb) → RateLimitAction (Unit {0})
  unfolding consume_attempts
  consume input limit others meanwhile =
      if limit == 0
      then return tt
      else consume_attempts input limit others meanwhile mutation_attempts
