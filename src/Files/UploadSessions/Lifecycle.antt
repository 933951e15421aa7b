-- ===== src/Files/UploadSessions/Lifecycle.antt =====
-- backend/src/modules/files/upload-session-lifecycle.ts. Where an operation reads its session before
-- its transaction, `between` is what other requests write in the meantime. The clock is read once.
pub mod Resume
pub mod Resumed
use icedr.Prelude.{
  same_time, ℕ, ◌+◌, String, Bool, true, false, not, ◌&&◌, ◌||◌, Option, none, some, List, [], ◌∷◌,
  if◌then◌else◌, leb, ltb, ◌==◌, get_or, is_none, is_some, is_text, same_text, str_eq, length,
  filter, contains, any, min,
}
use icedr.Prisma.{Client, Outcome, resolved, thrown, ◌>>=◌, ◌>>◌, return, throw}
use icedr.Transfers.State.{
  TransferTaskStatus, pending, running, paused, completed, failed, expired, canceled, status_text,
  same_status, can_transition_transfer_task, get_transfer_task_transition_sources,
  is_terminal_transfer_task_status, TransferTaskFailureCode, upload_failed, upload_session_expired,
}
use icedr.Transfers.Tables.{
  TransferTask, UploadSession, AuditEvent, TransferDb, status_in, unexpired, started_before_lease,
  claim_is_free, code_text,
}
use icedr.Transfers.Repository.{update_sources}
use icedr.Files.UploadSessions.{
  SessionError, transfer_state_conflict, session_state_conflict, UploadSessionResponse,
  map_upload_session, SessionAction, update_transfers, update_sessions, find_transfer, find_session,
  catch_conflict,
}

pub record StatusOptions : Type 0 where
  pub expires_at : Option ℕ
  pub expected_status : Option TransferTaskStatus
  pub failure_code : Option TransferTaskFailureCode
  pub node_id : Option (Option String)

-- The failure code of a session that takes a status.
abbrev pub session_code :
    TransferTaskStatus → Option TransferTaskFailureCode → Option TransferTaskFailureCode
session_code failed code = some (get_or code upload_failed)
session_code expired code = some (get_or code upload_session_expired)
session_code _ code = none

abbrev pub can_recover_stale_claim : TransferTaskStatus → Bool
can_recover_stale_claim status =
    same_status status canceled || same_status status expired || same_status status failed

abbrev pub status_expected : Option TransferTaskStatus → TransferTaskStatus → String → Bool
status_expected (some wanted) status text = str_eq text (status_text wanted)
status_expected none status text = status_in (update_sources status) text

abbrev pub expiry_permits : TransferTaskStatus → UploadSession → ℕ → Bool
expiry_permits expired row now = true
expiry_permits completed row now =
    str_eq row.status (status_text completed) || unexpired row.expires_at now
expiry_permits canceled row now =
    str_eq row.status (status_text canceled) || unexpired row.expires_at now
expiry_permits _ row now = unexpired row.expires_at now

-- The `where` of `updateStatus`.
unfoldable pub takes_status : String → TransferTaskStatus → StatusOptions → ℕ → UploadSession → Bool
takes_status id status options now row =
    str_eq row.id id
    && (if can_recover_stale_claim status
        then claim_is_free row now
        else is_none row.completion_token)
    && status_expected options.expected_status status row.status
    && expiry_permits status row now

abbrev keep_or {ℓ} : {A : Type ℓ} → Option A → A → A
keep_or none old = old
keep_or (some new) old = new

abbrev later_expiry : Option ℕ → Option ℕ → Option ℕ
later_expiry none old = old
later_expiry (some t) old = some t

-- The `data` of `updateStatus`.
unfoldable pub with_status : TransferTaskStatus → StatusOptions → ℕ → UploadSession → UploadSession
with_status status options now row = record row {
  status = status_text status;
  failure_code = code_text (session_code status options.failure_code);
  expires_at = later_expiry options.expires_at row.expires_at;
  node_id = keep_or options.node_id row.node_id;
  completion_token = if can_recover_stale_claim status then none else row.completion_token;
  completion_started_at =
      if can_recover_stale_claim status then none else row.completion_started_at;
  updated_at = now;
}

abbrev expects_impossible : Option TransferTaskStatus → TransferTaskStatus → Bool
expects_impossible none status = false
expects_impossible (some wanted) status =
    not (can_transition_transfer_task (status_text wanted) (status_text status))

-- `rows.length !== 1 || rows[0].status !== status`
abbrev only_with_status : TransferTaskStatus → ℕ → List UploadSession → Option UploadSessionResponse
only_with_status status now (row ∷ []) =
    if str_eq row.status (status_text status) then some (map_upload_session row now) else none
only_with_status status now _ = none

module _ (prisma : Client) where
  find_by_id : String → SessionAction (Option UploadSession)
  find_by_id id = find_session prisma (λ row. str_eq row.id id)

  write_status :
      String → TransferTaskStatus → StatusOptions → ℕ → SessionAction (Option UploadSessionResponse)
  write_status id status options now = do
    rows ←
        update_sessions prisma (takes_status id status options now) (with_status status options now)
    return (only_with_status status now rows)

  -- The early returns for a terminal status.
  after_terminal_read :
      String
      → TransferTaskStatus
      → StatusOptions
      → ℕ
      → (TransferDb → TransferDb)
      → Option UploadSession
      → SessionAction (Option UploadSessionResponse)
  unfolding write_status
  after_terminal_read id status options now between none = return none
  after_terminal_read id status options now between (some current) =
      if str_eq current.status (status_text status)
      then return (some (map_upload_session current now))
      else (λ db. write_status id status options now (between db))

  unfoldable pub update_status :
      String
      → TransferTaskStatus
      → StatusOptions
      → ℕ
      → (between : TransferDb → TransferDb) → SessionAction (Option UploadSessionResponse)
  unfolding find_by_id after_terminal_read write_status
  update_status id status options now between =
      if expects_impossible options.expected_status status
      then return none
      else if is_terminal_transfer_task_status status
      then (do current ← find_by_id id; after_terminal_read id status options now between current)
      else write_status id status options now

  -- `setLegacyExpiry`: rows[0] if there is one, or a row that has the expiry already.
  first_or : {A : Type 0} → List A → SessionAction (Option A) → SessionError → SessionAction A
  first_or (row ∷ []) again error = return row
  first_or (row ∷ other ∷ rows) again error = throw error
  first_or [] again error = do
    found ← again
    elim found [ none ↦ throw error | some row ↦ return row ]

  legacy_transaction : UploadSession → ℕ → ℕ → SessionAction (Option UploadSessionResponse)
  unfolding first_or
  legacy_transaction current expires_at now = do
    transfer_rows ←
        update_transfers prisma
          (λ row.
            str_eq row.id current.transfer_id
            && str_eq row.transfer_type "upload"
            && str_eq row.status current.status
            && is_none row.expires_at)
          (λ row. record row { expires_at = some expires_at; updated_at = now })
    transfer ←
        first_or transfer_rows
          (find_transfer prisma λ row.
            str_eq row.id current.transfer_id
            && str_eq row.transfer_type "upload"
            && str_eq row.status current.status
            && same_time row.expires_at (some expires_at))
          transfer_state_conflict
    rows ←
        update_sessions prisma
          (λ row.
            str_eq row.id current.id
            && str_eq row.transfer_id current.transfer_id
            && str_eq row.status transfer.status
            && is_none row.completion_token
            && is_none row.expires_at)
          (λ row. record row { expires_at = some expires_at; updated_at = now })
    row ←
        first_or rows
          (find_session prisma λ row.
            str_eq row.id current.id
            && str_eq row.transfer_id current.transfer_id
            && str_eq row.status transfer.status
            && same_time row.expires_at (some expires_at))
          session_state_conflict
    return (some (map_upload_session row now))

  legacy_expiry :
      ℕ
      → ℕ
      → (TransferDb → TransferDb)
      → Option UploadSession
      → SessionAction (Option UploadSessionResponse)
  unfolding legacy_transaction
  legacy_expiry expires_at now between none = return none
  legacy_expiry expires_at now between (some current) =
      if is_some current.expires_at && not (same_time current.expires_at (some expires_at))
      then return none
      else (λ db. catch_conflict (
          prisma.transaction SessionError (Option UploadSessionResponse) TransferDb
            (legacy_transaction current expires_at now) (between db)))

  unfoldable pub set_legacy_expiry :
      String
      → ℕ
      → ℕ
      → (between : TransferDb → TransferDb) → SessionAction (Option UploadSessionResponse)
  unfolding find_by_id legacy_expiry
  set_legacy_expiry id expires_at now between = do
    current ← find_by_id id
    legacy_expiry expires_at now between current
