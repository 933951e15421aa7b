-- ===== src/Shares/DownloadCommit/Transaction.antt =====
-- The transaction of share-download-commit.repository.ts, step by step.
use icedr.Prelude.{
  ℕ, String, not, Option, none, some, List, if◌then◌else◌, leb, ◌==◌, str_eq, length, is_some,
}
use icedr.Prisma.{Client, resolved, thrown, ◌>>=◌, return}
use icedr.Shares.DownloadCommit.{
  ShareLink, ShareDownloadIntent, ShareEvent, ShareDb, CommitShareDownloadIntentInput,
  CommitShareDownloadIntentResult, CommitError, CommitAction, share_expires_at, is_usable_intent,
  can_be_used, used, committed_intent, Start, start_of, started_event, silent, limited, starts,
  committed, download_limit_reached, intent_unavailable, share_expired, share_missing,
  share_revoked, event_exists,
}

module _ (prisma : Client) (digest : List ℕ → String) (draw_id : List ShareEvent → String) where
  unfoldable pub record_start :
      ShareLink → CommitShareDownloadIntentInput → ℕ → Start → CommitAction (Unit {0})
  record_start share input now silent = return tt
  record_start share input now limited = return tt
  record_start share input now (starts metadata) = λ db.
      let event = started_event share.workspace_id input now (draw_id db.events) metadata in
      elim (prisma.create ShareEvent (λ row. str_eq row.id event.id) event db.events) [
        | none ↦ (thrown event_exists, db)
        | some events ↦ (resolved tt, record db { events = events })
      ]

  unfoldable pub use_intents :
      CommitShareDownloadIntentInput → ℕ → ShareDownloadIntent → CommitAction ℕ
  use_intents input now intent db =
      let (intents, rows) =
        prisma.update_many_and_return ShareDownloadIntent (can_be_used input now intent)
          (used now intent) db.intents in
      (resolved (length rows), record db { intents = intents })

  -- What follows the update, by the number of rows that it changed.
  unfoldable pub after_use :
      ShareLink
      → CommitShareDownloadIntentInput
      → ℕ
      → ShareDownloadIntent
      → Start
      → ℕ
      → CommitAction CommitShareDownloadIntentResult
  unfolding record_start
  after_use share input now intent start count =
      if count == 1
      then (do
        done ← record_start share input now start
        return (committed (committed_intent now intent)))
      else return intent_unavailable

  unfoldable pub use_intent :
      ShareLink
      → CommitShareDownloadIntentInput
      → ℕ
      → ShareDownloadIntent
      → Start
      → CommitAction CommitShareDownloadIntentResult
  unfolding use_intents after_use
  use_intent share input now intent start = do
    count ← use_intents input now intent
    after_use share input now intent start count

  unfoldable pub start_intent :
      ShareLink
      → CommitShareDownloadIntentInput
      → ℕ
      → ShareDownloadIntent
      → Start
      → CommitAction CommitShareDownloadIntentResult
  unfolding use_intent
  start_intent share input now intent silent = use_intent share input now intent silent
  start_intent share input now intent limited = return download_limit_reached
  start_intent share input now intent (starts metadata) =
      use_intent share input now intent (starts metadata)

  unfoldable pub commit_intent :
      ShareLink
      → CommitShareDownloadIntentInput
      → ℕ
      → Option ShareDownloadIntent
      → CommitAction CommitShareDownloadIntentResult
  unfolding start_intent
  commit_intent share input now none = return intent_unavailable
  commit_intent share input now (some intent) = λ db.
      if not (is_usable_intent digest input now intent)
      then (resolved intent_unavailable, db)
      else start_intent share input now intent (start_of input intent db) db

  unfoldable pub commit_share :
      CommitShareDownloadIntentInput
      → ℕ
      → Option ShareLink
      → CommitAction CommitShareDownloadIntentResult
  unfolding commit_intent
  commit_share input now none = return share_missing
  commit_share input now (some share) = λ db.
      if is_some share.revoked_at
      then (resolved share_revoked, db)
      else if leb (share_expires_at share) now
      then (resolved share_expired, db)
      else commit_intent share input now
          (prisma.find_first ShareDownloadIntent (λ row. str_eq row.id input.download_id)
            db.intents)
          db

  unfoldable pub commit :
      CommitShareDownloadIntentInput → ℕ → CommitAction CommitShareDownloadIntentResult
  unfolding commit_share
  commit input now = prisma.transaction CommitError CommitShareDownloadIntentResult ShareDb (λ db.
      commit_share input now
        (prisma.find_first ShareLink (λ row. str_eq row.token input.share_token) db.shares) db)
