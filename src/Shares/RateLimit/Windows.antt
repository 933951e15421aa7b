-- ===== src/Shares/RateLimit/Windows.antt =====
-- How many requests `consume` admits in one window, and when it admits again.
use icedr.Prelude.{
  ℕ, ◌+◌, ◌-◌, ◌*◌, ◌/◌, ◌≤◌, ◌<◌, ◌≡◌, refl, sym, String, true, false, some, List, [], ◌∷◌, arith,
  max, ltb, leb, Bool-cases, inl, inr, ◌∙◌, ap,
}
use icedr.Prisma.{Client, IsPrisma, Outcome, resolved, thrown}
use icedr.Shares.RateLimit.{
  Bucket, BucketWindow, RateLimitError, exceeded, RateLimitDb, in_window, has_key, exceeded_error,
  restarted, consume,
}
use icedr.Shares.RateLimit.Decides.{decide, on_table, consume-eq-decide}

abbrev pub at_time : BucketWindow → ℕ → BucketWindow
at_time input now = record input { now = now }

abbrev is_admitted : Outcome RateLimitError (Unit {0}) → ℕ
is_admitted (resolved a) = 1
is_admitted (thrown e) = 0

-- The requests that are admitted of those that come at the times, one after the other.
unfoldable pub admissions :
    Client → (RateLimitDb → String) → BucketWindow → ℕ → List ℕ → RateLimitDb → ℕ
admissions c draw_id input limit [] db = 0
admissions c draw_id input limit (t ∷ ts) db =
    let (outcome, after) = consume c draw_id (at_time input t) limit (λ _ d. d) (λ _ d. d) db in
    is_admitted outcome + admissions c draw_id input limit ts after

decide_waits :
    (input : BucketWindow) (limit seconds later : ℕ) (id : String) (row : Bucket)
    → on_table (decide input limit id (some row)) ≡ (thrown (exceeded seconds), row ∷ [])
    → input.now + seconds * 1000 < later
    → (1 ≤ seconds)
      × (on_table (decide (at_time input later) limit id (some row))
          ≡ (resolved tt, restarted later row ∷ []))
unfolding decide exceeded_error
decide_waits input limit seconds later id row e l =
    elim (Bool-cases (in_window input row.window_started_at)) [
      | inr k ↦ absurd (ground arith)
      | inl k ↦ elim (Bool-cases (ltb row.count limit)) [
        | inl m ↦ absurd (ground arith)
        | inr m ↦
            let s : max 1
                  ((row.window_started_at + input.window_seconds * 1000 - input.now + 999) / 1000)
                ≡ seconds =
              ground arith in
            (omega arith, rw (out_of_window s) refl)
      ]
    ]
  where
    out_of_window :
        max 1 ((row.window_started_at + input.window_seconds * 1000 - input.now + 999) / 1000)
          ≡ seconds
        → leb later (row.window_started_at + input.window_seconds * 1000) ≡ false
    out_of_window s = ground arith

-- Who is told to wait a number of seconds has to wait at least one, and is admitted by a request
-- after more than that time, if nobody else came.
pub exceeded_retry :
    (prisma : Client)
    → IsPrisma prisma
    → (draw_id : RateLimitDb → String) (input : BucketWindow) (limit seconds later : ℕ)
      (row : Bucket)
    → 0 < limit
    → has_key input.action input.scope_hash row ≡ true
    → consume prisma draw_id input limit (λ _ d. d) (λ _ d. d) (row ∷ [])
      ≡ (thrown (exceeded seconds), row ∷ [])
    → input.now + seconds * 1000 < later
    → (1 ≤ seconds)
      × ((consume prisma draw_id (at_time input later) limit (λ _ d. d) (λ _ d. d) (row ∷ [])).0
          ≡ resolved tt)
exceeded_retry prisma laws draw_id input limit seconds later row p h e l =
    let decided =
      decide_waits input limit seconds later (draw_id (row ∷ [])) row
        (sym (consume-eq-decide prisma laws draw_id input limit (some row) p h) ∙ e) l in
    (
      decided.0,
      ap (λ q. q.0)
          (consume-eq-decide prisma laws draw_id (at_time input later) limit (some row) p h
            ∙ decided.1),
    )
