-- ===== src/Shares/DownloadIntents/Races.antt =====
-- Two requests that claim an intent after both have read it.
use icedr.Prelude.{
  ℕ, ◌≤◌, ◌≡◌, refl, String, Bool, true, false, none, some, List, [], ◌∷◌, any, same_text, arith,
}
use icedr.Prisma.{Client, IsPrisma, by_in_memory, in_memory, resolved, update_where}
use icedr.Prisma.Ensures.{update_where_none, filter_none}
use icedr.Shares.DownloadCommit.{ShareDownloadIntent, ShareDb}
use icedr.Shares.DownloadIntents.{
  OpenShareDownloadIntentInput, is_as_read, intent_claimed, first_row, claim_read,
}

module _ {Row : Type 0} (first second : Row → Bool) (patch : Row → Row)
    (patched : (x : Row) → first x ≡ true → second (patch x) ≡ false)
    (others : (x : Row) → first x ≡ false → second x ≡ false) where
  any-after_update : (rows : List Row) → any second (update_where first patch rows) ≡ false
  any-after_update [] = refl
  any-after_update (x ∷ rows) = ground (arith, patched x, others x, any-after_update rows)

module _ (digest : List ℕ → String) (input : OpenShareDownloadIntentInput)
    (first_now second_now : ℕ) (first_token second_token : String) (read : ShareDownloadIntent)
    (fresh : same_text (some first_token) read.claim_token ≡ false)
    (later : first_now ≤ second_now) where
  read_differs :
      (x : ShareDownloadIntent)
      → is_as_read input second_now read (intent_claimed first_token first_now x) ≡ false
  read_differs x = ground (arith, fresh)

  stays_unread :
      (x : ShareDownloadIntent)
      → is_as_read input first_now read x ≡ false
      → is_as_read input second_now read x ≡ false
  stays_unread x h = ground (arith, h)

  -- A write that finds no row as it was read.
  unread-claim_read :
      (between : ShareDb → ShareDb) (db : ShareDb)
      → any (is_as_read input second_now read) (between db).intents ≡ false
      → claim_read in_memory digest second_token input second_now between (some read) db
        ≡ (resolved none, between db)
  unfolding claim_read
  unread-claim_read between db h =
      let rows = (between db).intents in
      let patch = intent_claimed second_token second_now in
      λ i. (
        resolved (first_row (filter_none (is_as_read input second_now read) patch rows h i)),
        record (between db) {
          intents = update_where_none (is_as_read input second_now read) patch rows h i;
        },
      )

  race-in_memory :
      (db : ShareDb)
      → claim_read in_memory digest second_token input second_now
          (λ d. (claim_read in_memory digest first_token input first_now (λ e. e) (some read) d).1)
          (some read)
          db
        ≡ (
          resolved none,
          (claim_read in_memory digest first_token input first_now (λ e. e) (some read) db).1,
        )
  unfolding claim_read
  race-in_memory db =
      unread-claim_read
        (λ d. (claim_read in_memory digest first_token input first_now (λ e. e) (some read) d).1) db
        (any-after_update (is_as_read input first_now read) (is_as_read input second_now read)
          (intent_claimed first_token first_now) (λ x _. read_differs x) stays_unread db.intents)

-- Of two requests that have read the same row of an intent, the one that writes its claim second gets
-- null and changes nothing: if its clock is not behind, and the first one's token is not the one that
-- the row had.
pub second_claim-IsRefused :
    (prisma : Client)
    → IsPrisma prisma
    → (digest : List ℕ → String) (input : OpenShareDownloadIntentInput) (first_now second_now : ℕ)
      (first_token second_token : String) (read : ShareDownloadIntent) (db : ShareDb)
    → same_text (some first_token) read.claim_token ≡ false
    → first_now ≤ second_now
    → claim_read prisma digest second_token input second_now
        (λ d. (claim_read prisma digest first_token input first_now (λ e. e) (some read) d).1)
        (some read)
        db
      ≡ (
        resolved none,
        (claim_read prisma digest first_token input first_now (λ e. e) (some read) db).1,
      )
second_claim-IsRefused prisma laws digest input first_now second_now first_token second_token read
      db fresh later =
    by_in_memory
      (λ c.
        claim_read c digest second_token input second_now
          (λ d. (claim_read c digest first_token input first_now (λ e. e) (some read) d).1)
          (some read) db
        ≡ (
          resolved none,
          (claim_read c digest first_token input first_now (λ e. e) (some read) db).1,
        ))
      laws
      (race-in_memory digest input first_now second_now first_token second_token read fresh later
        db)
