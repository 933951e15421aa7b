-- ===== src/Shares/RateLimit/Examples.antt =====
-- One bucket of a window of a minute, with the client in memory.
use icedr.Prelude.{ℕ, refl, String, some, [], ◌∷◌}
use icedr.Prisma.{in_memory, in_memory-IsPrisma}
use icedr.Shares.RateLimit.{Bucket, BucketWindow, RateLimitDb, consume}
use icedr.Shares.RateLimit.Decides.{table}
use icedr.Shares.RateLimit.Bounds.{IsBounded, consume-IsBounded}

abbrev attempt : BucketWindow
attempt = record { action = "password"; scope_hash = "h"; window_seconds = 60; now = 90000 }

abbrev bucket : ℕ → Bucket
bucket count = record {
  id = "b1";
  action = "password";
  scope_hash = "h";
  count = count;
  window_started_at = 40000;
  updated_at = 50000;
}

abbrev fixed_id : RateLimitDb → String
fixed_id _ = "b2"

consume-IsBounded_example :
    IsBounded "password" "h" 3
      (consume in_memory fixed_id attempt 3
        (λ _ db. db)
        (λ _ db. table (some (bucket 3)))
        (bucket 2 ∷ [])).1
consume-IsBounded_example =
    consume-IsBounded in_memory in_memory-IsPrisma fixed_id attempt 3 (λ _ db. db)
      (λ _ db. table (some (bucket 3))) (λ _ db h. h) (λ _ db h. refl) (bucket 2 ∷ []) refl
