-- ===== src/Files/UploadSessions/Completion.antt =====
-- backend/src/modules/files/upload-session-completion.ts: the claim under which one worker completes
-- an upload, and the operations that only its holder may do. Where an operation reads rows before
-- its writes, `between` is what other requests write in the meantime. The random token of a claim is
-- an argument.
pub mod Finishing
pub mod Finished
pub mod Fencing
pub mod Fenced
pub mod Claimed
pub mod Parts
mod Examples
use icedr.Prelude.{
  ℕ, ◌+◌, String, Bool, true, false, not, ◌&&◌, ◌||◌, Option, none, some, List, [], ◌∷◌,
  if◌then◌else◌, ltb, is_some, is_text, str_eq,
}
use icedr.Prisma.{Client, ◌>>=◌, ◌>>◌, return, throw}
use icedr.Transfers.State.{
  TransferTaskStatus, pending, running, failed, status_text, can_transition_transfer_task,
}
use icedr.Transfers.Tables.{
  TransferTask, UploadSession, TransferDb, status_in, unexpired, claim_is_free,
  upload_completion_claim_lease_ms,
}
use icedr.Files.UploadSessions.{
  SessionError, transfer_state_conflict, session_state_conflict, UploadSessionResponse,
  map_upload_session, SessionAction, update_transfers, update_sessions, find_transfer, find_session,
  catch_conflict,
}

-- The expiry of a claimed upload: at least as late as the lease of the claim.
abbrev pub extended_expiry : Option ℕ → ℕ → Option ℕ
extended_expiry none lease = none
extended_expiry (some t) lease = if ltb t lease then some lease else some t

-- `extendedExpiresAt !== session.expiresAt`
abbrev pub extends_expiry : Option ℕ → ℕ → Bool
extends_expiry none lease = false
extends_expiry (some t) lease = ltb t lease

-- `...(extendsExpiry ? { expiresAt: extendedExpiresAt } : {})`
abbrev pub with_extension : Option ℕ → ℕ → Option ℕ → Option ℕ
with_extension read lease column =
    if extends_expiry read lease then extended_expiry read lease else column

abbrev pub transfer_can_be_claimed : String → ℕ → TransferTask → Bool
transfer_can_be_claimed transfer_id now row =
    str_eq row.id transfer_id
    && str_eq row.transfer_type "upload"
    && status_in (pending ∷ running ∷ failed ∷ []) row.status
    && unexpired row.expires_at now

abbrev pub transfer_claimed : Option ℕ → ℕ → TransferTask → TransferTask
transfer_claimed read now row = record row {
  status = "running";
  failure_code = none;
  expires_at = with_extension read (now + upload_completion_claim_lease_ms) row.expires_at;
  updated_at = now;
}

abbrev pub session_can_be_claimed : String → TransferTaskStatus → ℕ → UploadSession → Bool
session_can_be_claimed id expected now row =
    str_eq row.id id
    && str_eq row.status (status_text expected)
    && unexpired row.expires_at now
    && claim_is_free row now

abbrev pub session_claimed : Option ℕ → String → ℕ → UploadSession → UploadSession
session_claimed read token now row = record row {
  status = "running";
  failure_code = none;
  completion_token = some token;
  completion_started_at = some now;
  expires_at = with_extension read (now + upload_completion_claim_lease_ms) row.expires_at;
  updated_at = now;
}

-- A running session whose completion claim has the token.
abbrev pub owns : String → String → UploadSession → Bool
owns id token row =
    str_eq row.id id && str_eq row.status "running" && is_text row.completion_token token

abbrev pub owns_in_time : String → String → ℕ → UploadSession → Bool
owns_in_time id token now row = owns id token row && unexpired row.expires_at now

-- `rows.length === 1` with a test of its row.
abbrev pub only_if : {A : Type 0} → (A → Bool) → List A → Option A
only_if test (row ∷ []) = if test row then some row else none
only_if test _ = none

abbrev pub response_of_row : ℕ → Option UploadSession → Option UploadSessionResponse
response_of_row now none = none
response_of_row now (some row) = some (map_upload_session row now)

-- `value === null ? null : value > lease ? value : lease`
abbrev pub refreshed_expiry : Option ℕ → ℕ → Option ℕ
refreshed_expiry none lease = none
refreshed_expiry (some t) lease = if ltb lease t then some t else some lease

abbrev pub transfer_can_be_refreshed : String → ℕ → TransferTask → Bool
transfer_can_be_refreshed transfer_id now row =
    str_eq row.id transfer_id
    && str_eq row.status "running"
    && str_eq row.transfer_type "upload"
    && unexpired row.expires_at now

abbrev pub transfer_refreshed : Option ℕ → ℕ → TransferTask → TransferTask
transfer_refreshed read now row = record row {
  expires_at = refreshed_expiry read (now + upload_completion_claim_lease_ms);
  updated_at = now;
}

abbrev pub session_refreshed : Option ℕ → ℕ → UploadSession → UploadSession
session_refreshed read now row = record row {
  completion_started_at = some now;
  expires_at = refreshed_expiry read (now + upload_completion_claim_lease_ms);
  updated_at = now;
}

module _ (prisma : Client) (now : ℕ) where
  unfoldable pub find_session_by_id : String → SessionAction (Option UploadSession)
  find_session_by_id id = find_session prisma (λ row. str_eq row.id id)

  unfoldable pub assert_count_one : {A : Type 0} → SessionError → List A → SessionAction (Unit {0})
  assert_count_one error (row ∷ []) = return tt
  assert_count_one error _ = throw error

  -- A session that was not the only one changed, or is not as it should be, is a conflict.
  unfoldable pub require_session : Option UploadSession → SessionAction UploadSession
  require_session none = throw session_state_conflict
  require_session (some row) = return row

  unfoldable pub assert_session :
      (UploadSession → Bool) → List UploadSession → SessionAction UploadSession
  unfolding require_session
  assert_session test rows = require_session (only_if test rows)

  unfoldable pub claim_transaction :
      UploadSession → TransferTaskStatus → String → SessionAction (Option UploadSessionResponse)
  unfolding assert_count_one assert_session
  claim_transaction session expected token = do
    transfers ←
        update_transfers prisma (transfer_can_be_claimed session.transfer_id now)
          (transfer_claimed session.expires_at now)
    assert_count_one transfer_state_conflict transfers
    rows ←
        update_sessions prisma (session_can_be_claimed session.id expected now)
          (session_claimed session.expires_at token now)
    row ←
        assert_session (λ row. str_eq row.status "running" && is_text row.completion_token token)
          rows
    return (some (map_upload_session row now))

  -- The part of an operation that runs in a transaction and turns a conflict into null.
  abbrev pub in_transaction :
      SessionAction (Option UploadSessionResponse) → SessionAction (Option UploadSessionResponse)
  in_transaction operation db =
      catch_conflict
        (prisma.transaction SessionError (Option UploadSessionResponse) TransferDb operation db)

  unfoldable pub claim_found :
      TransferTaskStatus
      → String
      → (TransferDb → TransferDb)
      → Option UploadSession
      → SessionAction (Option UploadSessionResponse)
  unfolding claim_transaction
  claim_found expected token between none = return none
  claim_found expected token between (some session) =
      λ db. in_transaction (claim_transaction session expected token) (between db)

  -- `claim`
  unfoldable pub claim_completion :
      String
      → TransferTaskStatus
      → String
      → (between : TransferDb → TransferDb) → SessionAction (Option UploadSessionResponse)
  unfolding find_session_by_id claim_found
  claim_completion id expected token between =
      if not (can_transition_transfer_task (status_text expected) "running")
      then return none
      else (do session ← find_session_by_id id; claim_found expected token between session)

  unfoldable pub refresh_transaction :
      String → String → UploadSession → TransferTask → SessionAction (Option UploadSessionResponse)
  unfolding assert_count_one assert_session
  refresh_transaction id token session transfer = do
    transfers ←
        update_transfers prisma (transfer_can_be_refreshed session.transfer_id now)
          (transfer_refreshed transfer.expires_at now)
    assert_count_one transfer_state_conflict transfers
    rows ←
        update_sessions prisma (owns_in_time id token now)
          (session_refreshed session.expires_at now)
    row ←
        assert_session (λ row. is_text row.completion_token token && str_eq row.status "running")
          rows
    return (some (map_upload_session row now))

  unfoldable pub refresh_with :
      String
      → String
      → (TransferDb → TransferDb)
      → UploadSession
      → Option TransferTask
      → SessionAction (Option UploadSessionResponse)
  unfolding refresh_transaction
  refresh_with id token between session none = return none
  refresh_with id token between session (some transfer) =
      λ db. in_transaction (refresh_transaction id token session transfer) (between db)

  unfoldable pub refresh_found :
      String
      → String
      → (TransferDb → TransferDb)
      → (TransferDb → TransferDb)
      → Option UploadSession
      → SessionAction (Option UploadSessionResponse)
  unfolding refresh_with
  refresh_found id token others between none = return none
  refresh_found id token others between (some session) = λ db.
      (do
        transfer ← find_transfer prisma (λ row. str_eq row.id session.transfer_id)
        refresh_with id token between session transfer)
        (others db)

  -- `others` is written between the two reads, and `between` after them.
  unfoldable pub refresh :
      String
      → String
      → (others between : TransferDb → TransferDb) → SessionAction (Option UploadSessionResponse)
  unfolding find_session_by_id refresh_found
  refresh id token others between = do
    session ← find_session_by_id id
    refresh_found id token others between session

  unfoldable pub mark_storage_finalized :
      String → String → SessionAction (Option UploadSessionResponse)
  mark_storage_finalized id token = do
    rows ← update_sessions prisma (owns_in_time id token now) (λ row. record row {
      storage_finalized_at = some now;
      completion_started_at = some now;
      updated_at = now;
    })
    return (response_of_row now (only_if (λ row. is_some row.storage_finalized_at) rows))

  unfoldable pub persist_node :
      String → String → String → SessionAction (Option UploadSessionResponse)
  persist_node id token node_id = do
    rows ← update_sessions prisma (owns_in_time id token now) (λ row. record row {
      node_id = some node_id;
      completion_started_at = some now;
      updated_at = now;
    })
    return (response_of_row now (only_if (λ row. is_text row.node_id node_id) rows))
