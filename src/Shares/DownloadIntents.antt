-- ===== src/Shares/DownloadIntents.antt =====
-- backend/src/modules/shares/share-download-intent.repository.ts: how the intent of a download or a
-- preview is found, claimed by one request, and given back. `between` is what other requests write
-- after the row was read.
mod Spent
mod Races
mod Examples
use icedr.Prelude.{
  ℕ, ◌+◌, String, Bool, true, false, not, ◌&&◌, ◌||◌, Option, none, some, List, [], ◌∷◌,
  if◌then◌else◌, leb, ltb, ◌==◌, str_eq, length, is_none, is_some, is_text, same_text, same_time,
}
use icedr.Prisma.{Client, Outcome, resolved, Action, ◌>>=◌, return}
use icedr.Shares.DownloadCommit.{
  ShareDownloadIntent, ShareEvent, ShareDb, ShareVisitorFingerprint, CommitError, CommitAction,
  is_download, use_limit, matches_share_visitor_fingerprint,
}

abbrev pub share_download_intent_claim_lease_ms : ℕ
share_download_intent_claim_lease_ms = 30000

pub record OpenShareDownloadIntentInput : Type 0 where
  pub download_id : String
  pub token : String
  pub node_id : String
  pub visitor : ShareVisitorFingerprint

pub record UpdateShareDownloadIntentClaimInput : Type 0 where
  pub claim_token : String
  pub download_id : String
  pub node_id : String
  pub token : String

-- `claimedAt > now - lease`, of a claim that has a date.
abbrev pub claimed_since : ℕ → Option ℕ → Bool
claimed_since now none = false
claimed_since now (some claimed_at) = ltb now (claimed_at + share_download_intent_claim_lease_ms)

-- `Boolean(claimToken)`
abbrev pub is_claimed : Option String → Bool
is_claimed none = false
is_claimed (some token) = not (str_eq token "")

abbrev pub has_active_claim : ℕ → ShareDownloadIntent → Bool
has_active_claim now row = is_claimed row.claim_token && claimed_since now row.claimed_at

abbrev pub can_be_opened :
    (List ℕ → String) → OpenShareDownloadIntentInput → ℕ → ShareDownloadIntent → Bool
can_be_opened digest input now row = not (
    not (str_eq row.share_token input.token)
    || not (str_eq row.node_id input.node_id)
    || leb row.expires_at now
    || is_download row && is_some row.consumed_at
    || not (is_download row) && not (str_eq row.purpose "preview")
    || leb (use_limit row.purpose) row.use_count
    || has_active_claim now row
    || not (matches_share_visitor_fingerprint digest row input.visitor))

abbrev pub usable_row :
    (List ℕ → String)
    → OpenShareDownloadIntentInput
    → ℕ
    → Option ShareDownloadIntent
    → Option ShareDownloadIntent
usable_row digest input now none = none
usable_row digest input now (some row) =
    if can_be_opened digest input now row then some row else none

-- The `where` of the claim: the row is still as it was read.
abbrev pub is_as_read : OpenShareDownloadIntentInput → ℕ → (read row : ShareDownloadIntent) → Bool
is_as_read input now read row =
    str_eq row.id read.id
    && str_eq row.share_token input.token
    && str_eq row.node_id input.node_id
    && same_text row.claim_token read.claim_token
    && same_time row.claimed_at read.claimed_at
    && is_none row.consumed_at
    && ltb now row.expires_at
    && same_text row.failure_code read.failure_code
    && str_eq row.purpose read.purpose
    && same_time row.updated_at read.updated_at
    && row.use_count == read.use_count

abbrev pub intent_claimed : String → ℕ → ShareDownloadIntent → ShareDownloadIntent
intent_claimed claim_token now row = record row {
  claim_token = some claim_token;
  claimed_at = some now;
  failure_code = none;
  updated_at = some now;
}

abbrev pub holds_claim : UpdateShareDownloadIntentClaimInput → ℕ → ShareDownloadIntent → Bool
holds_claim input now row =
    str_eq row.id input.download_id
    && str_eq row.share_token input.token
    && str_eq row.node_id input.node_id
    && is_text row.claim_token input.claim_token
    && is_none row.consumed_at
    && ltb now row.expires_at

-- Without a code, the failure code of the row stays.
abbrev pub claim_cleared : Option String → ℕ → ShareDownloadIntent → ShareDownloadIntent
claim_cleared none now row = record row {
  claim_token = none;
  claimed_at = none;
  updated_at = some now;
}
claim_cleared (some code) now row = record row {
  claim_token = none;
  claimed_at = none;
  failure_code = some code;
  updated_at = some now;
}

abbrev pub first_row : List ShareDownloadIntent → Option ShareDownloadIntent
first_row [] = none
first_row (row ∷ rows) = some row

module _ (prisma : Client) (digest : List ℕ → String) where
  unfoldable pub find_usable_row :
      OpenShareDownloadIntentInput → ℕ → CommitAction (Option ShareDownloadIntent)
  find_usable_row input now db = (
    resolved (
        usable_row digest input now (
          prisma.find_first ShareDownloadIntent (λ row. str_eq row.id input.download_id)
            db.intents)),
    db,
  )

  -- Null, or the row that was claimed.
  unfoldable pub claim_read :
      String
      → OpenShareDownloadIntentInput
      → ℕ
      → (ShareDb → ShareDb)
      → Option ShareDownloadIntent
      → CommitAction (Option ShareDownloadIntent)
  claim_read claim_token input now between none db = (resolved none, db)
  claim_read claim_token input now between (some read) db =
      let (intents, rows) =
        prisma.update_many_and_return ShareDownloadIntent (is_as_read input now read)
          (intent_claimed claim_token now) (between db).intents in
      (resolved (first_row rows), record (between db) { intents = intents })

  unfoldable pub claim_intent :
      String
      → OpenShareDownloadIntentInput
      → ℕ
      → (ShareDb → ShareDb)
      → CommitAction (Option ShareDownloadIntent)
  unfolding find_usable_row claim_read
  claim_intent claim_token input now between = do
    row ← find_usable_row input now
    claim_read claim_token input now between row

  unfoldable pub clear_claim :
      UpdateShareDownloadIntentClaimInput → Option String → ℕ → CommitAction Bool
  clear_claim input failure_code now db =
      let (intents, rows) =
        prisma.update_many_and_return ShareDownloadIntent (holds_claim input now)
          (claim_cleared failure_code now) db.intents in
      (resolved (length rows == 1), record db { intents = intents })

  unfoldable pub fail_claim : UpdateShareDownloadIntentClaimInput → ℕ → CommitAction Bool
  unfolding clear_claim
  fail_claim input now = clear_claim input (some "DOWNLOAD_FAILED") now

  unfoldable pub release_claim : UpdateShareDownloadIntentClaimInput → ℕ → CommitAction Bool
  unfolding clear_claim
  release_claim input now = clear_claim input none now

  unfoldable pub prune_expired : ℕ → CommitAction ℕ
  prune_expired now db =
      let (intents, count) =
        prisma.delete_many ShareDownloadIntent (λ row. leb row.expires_at now) db.intents in
      (resolved count, record db { intents = intents })
