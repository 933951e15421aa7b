-- ===== src/Shares/DownloadIntents/Spent.antt =====
-- What becomes of the intent of a download that has been used.
use icedr.Prelude.{
  ℕ, ◌≡◌, ◌≢◌, ◌∙◌, refl, sym, ap, subst, inl, inr, String, Bool, true, false, Option, none, some,
  List, [], ◌∷◌, find?, str_eq, is_some, Bool-cases, arith,
}
use icedr.Prisma.{Client, IsPrisma, by_in_memory, in_memory, resolved, then_run, update_where}
use icedr.Prisma.Ensures.{find?-update_where}
use icedr.Shares.DownloadCommit.{
  ShareDownloadIntent, ShareEvent, ShareDb, CommitShareDownloadIntentInput, committed, is_download,
}
use icedr.Shares.DownloadCommit.Transaction.{commit}
use icedr.Shares.DownloadCommit.Uses.{
  IsSpent, commit-keeps_IsSpent, committed-IsSpent, IsSpent-not_committed,
}
use icedr.Shares.DownloadIntents.{
  OpenShareDownloadIntentInput, UpdateShareDownloadIntentClaimInput, can_be_opened, is_as_read,
  intent_claimed, holds_claim, claim_cleared, find_usable_row, claim_read, claim_intent,
  clear_claim,
}

-- What writes to an intent, one statement or transaction at a time: the write of a claim, whatever row
-- it has read before, the end of a claim, with a failure or without, and a commit.
pub data IntentStep : Type 0 where
  claims : String → OpenShareDownloadIntentInput → ℕ → ShareDownloadIntent → IntentStep
  clears : UpdateShareDownloadIntentClaimInput → Option String → ℕ → IntentStep
  commits : CommitShareDownloadIntentInput → ℕ → IntentStep

module _ (c : Client) (digest : List ℕ → String) (draw_id : List ShareEvent → String) where
  unfoldable pub run_step : IntentStep → ShareDb → ShareDb
  run_step (claims claim_token input now read) db =
      (claim_read c digest claim_token input now (λ d. d) (some read) db).1
  run_step (clears input failure_code now) db = (clear_claim c digest input failure_code now db).1
  run_step (commits input now) db = (commit c digest draw_id input now db).1

  unfoldable pub run_steps : List IntentStep → ShareDb → ShareDb
  unfolding run_step
  run_steps [] db = db
  run_steps (step ∷ steps) db = run_steps steps (run_step step db)

updated-IsSpent :
    (test : ShareDownloadIntent → Bool) (patch : ShareDownloadIntent → ShareDownloadIntent)
    → ((x : ShareDownloadIntent) → (patch x).id ≡ x.id)
    → ((x : ShareDownloadIntent) → (patch x).purpose ≡ x.purpose)
    → ((x : ShareDownloadIntent) → (patch x).consumed_at ≡ x.consumed_at)
    → (id : String) (db : ShareDb) → IsSpent id db
    → IsSpent id (record db { intents = update_where test patch db.intents })
updated-IsSpent test patch ids purposes dates id db (row, found, d, c) =
    let kept =
      find?-update_where (λ r. str_eq r.id id) test patch (λ x. ap (λ i. str_eq i id) (ids x))
        db.intents found in
    elim (Bool-cases (test row)) [
      | inl t ↦ (
        patch row,
        kept ∙ rw t refl,
        ap (λ p. str_eq p "download") (purposes row) ∙ d,
        ap is_some (dates row) ∙ c,
      )
      | inr t ↦ (row, kept ∙ rw t refl, d, c)
    ]

cleared-kept :
    (failure_code : Option String) (now : ℕ) (x : ShareDownloadIntent)
    → ((claim_cleared failure_code now x).id ≡ x.id)
      × ((claim_cleared failure_code now x).purpose ≡ x.purpose)
      × ((claim_cleared failure_code now x).consumed_at ≡ x.consumed_at)
cleared-kept none now x = (refl, refl, refl)
cleared-kept (some code) now x = (refl, refl, refl)

module _ (digest : List ℕ → String) (draw_id : List ShareEvent → String) (id : String) where
  run_step-IsSpent :
      (step : IntentStep) (db : ShareDb)
      → IsSpent id db
      → IsSpent id (run_step in_memory digest draw_id step db)
  unfolding run_step claim_read clear_claim
  run_step-IsSpent (claims claim_token input now read) db h =
      updated-IsSpent (is_as_read input now read) (intent_claimed claim_token now) (λ x. refl)
        (λ x. refl) (λ x. refl) id db h
  run_step-IsSpent (clears input failure_code now) db h =
      updated-IsSpent (holds_claim input now) (claim_cleared failure_code now)
        (λ x. (cleared-kept failure_code now x).0) (λ x. (cleared-kept failure_code now x).1)
        (λ x. (cleared-kept failure_code now x).2) id db h
  run_step-IsSpent (commits input now) db h = commit-keeps_IsSpent digest draw_id input now db id h

  run_steps-IsSpent :
      (steps : List IntentStep) (db : ShareDb)
      → IsSpent id db
      → IsSpent id (run_steps in_memory digest draw_id steps db)
  unfolding run_steps
  run_steps-IsSpent [] db h = h
  run_steps-IsSpent (step ∷ steps) db h =
      run_steps-IsSpent steps (run_step in_memory digest draw_id step db)
        (run_step-IsSpent step db h)

  find_usable_row-spent :
      (opened : OpenShareDownloadIntentInput) (now : ℕ) (db : ShareDb)
      → opened.download_id ≡ id
      → IsSpent id db
      → find_usable_row in_memory digest opened now db ≡ (resolved none, db)
  unfolding find_usable_row
  find_usable_row-spent opened now db same (row, found, d, c) =
      let found' = subst (λ i. find? (λ r. str_eq r.id i) db.intents ≡ some row) (sym same) found in
      let closed : can_be_opened digest opened now row ≡ false = ground (arith, d, c) in
      rw (found', closed) refl

  claim_intent-spent :
      (claim_token : String) (opened : OpenShareDownloadIntentInput) (now : ℕ)
      (between : ShareDb → ShareDb) (db : ShareDb)
      → opened.download_id ≡ id
      → IsSpent id db
      → claim_intent in_memory digest claim_token opened now between db ≡ (resolved none, db)
  unfolding claim_intent claim_read
  claim_intent-spent claim_token opened now between db same h =
      ap (λ p. then_run p (claim_read in_memory digest claim_token opened now between))
        (find_usable_row-spent opened now db same h)

-- An intent is not found, a claim of it is refused and changes nothing, and a transaction with its id
-- does not return that it has committed.
abbrev pub IsClosed :
    Client
    → (List ℕ → String)
    → (List ShareEvent → String)
    → CommitShareDownloadIntentInput
    → OpenShareDownloadIntentInput
    → ℕ
    → String
    → (ShareDb → ShareDb)
    → ShareDownloadIntent
    → ShareDb
    → ShareDb
    → Type 0
IsClosed c digest draw_id later opened now claim_token between next last db =
    (find_usable_row c digest opened now db ≡ (resolved none, db))
    × (claim_intent c digest claim_token opened now between db ≡ (resolved none, db))
    × (commit c digest draw_id later now db ≢ (resolved (committed next), last))

module _ (digest : List ℕ → String) (draw_id : List ShareEvent → String)
    (input later : CommitShareDownloadIntentInput) (opened : OpenShareDownloadIntentInput)
    (now later_now : ℕ) (claim_token : String) (between : ShareDb → ShareDb)
    (steps : List IntentStep) (before after last : ShareDb) (row next : ShareDownloadIntent) where
  committed-in_memory :
      is_download row ≡ true
      → later.download_id ≡ input.download_id
      → opened.download_id ≡ input.download_id
      → commit in_memory digest draw_id input now before ≡ (resolved (committed row), after)
      → IsClosed in_memory digest draw_id later opened later_now claim_token between next last
          (run_steps in_memory digest draw_id steps after)
  committed-in_memory d same opens h =
      let db = run_steps in_memory digest draw_id steps after in
      let spent =
        run_steps-IsSpent digest draw_id input.download_id steps after
          (committed-IsSpent digest draw_id input now before row after h d) in
      (
        find_usable_row-spent digest draw_id input.download_id opened later_now db opens spent,
        claim_intent-spent digest draw_id input.download_id claim_token opened later_now between db
            opens spent,
        IsSpent-not_committed digest draw_id later later_now db next last
            (subst (λ id. IsSpent id db) (sym same) spent),
      )

-- Once a download has been committed, its intent is closed: after any sequence of claims' writes, ends
-- of claims and commits, it is not found, a claim of it is refused and changes nothing, and a later
-- transaction with its id does not return that it has committed.
pub committed-IsClosed :
    (prisma : Client)
    → IsPrisma prisma
    → (digest : List ℕ → String) (draw_id : List ShareEvent → String)
      (input later : CommitShareDownloadIntentInput) (opened : OpenShareDownloadIntentInput)
      (now later_now : ℕ) (claim_token : String) (between : ShareDb → ShareDb)
      (steps : List IntentStep) (before after last : ShareDb) (row next : ShareDownloadIntent)
    → commit prisma digest draw_id input now before ≡ (resolved (committed row), after)
    → is_download row ≡ true
    → later.download_id ≡ input.download_id
    → opened.download_id ≡ input.download_id
    → IsClosed prisma digest draw_id later opened later_now claim_token between next last
        (run_steps prisma digest draw_id steps after)
committed-IsClosed prisma laws digest draw_id input later opened now later_now claim_token between
      steps before after last row next h d same opens =
    by_in_memory
      (λ c.
        commit c digest draw_id input now before ≡ (resolved (committed row), after)
        → IsClosed c digest draw_id later opened later_now claim_token between next last
            (run_steps c digest draw_id steps after))
      laws
      (committed-in_memory digest draw_id input later opened now later_now claim_token between steps
        before after last row next d same opens)
      h
