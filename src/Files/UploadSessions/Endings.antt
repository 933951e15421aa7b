-- ===== src/Files/UploadSessions/Endings.antt =====
-- The transaction of `transitionFailure` and `cancel` of upload-session-lifecycle.ts, which ends a
-- transfer and its session and writes one audit event for the transfer.
pub mod Requests
pub mod Agreement
pub mod Together
use icedr.Prelude.{
  ℕ, String, Bool, true, false, not, ◌&&◌, ◌||◌, Option, none, some, List, [], ◌∷◌, if◌then◌else◌,
  str_eq, same_text, get_or, filter,
}
use icedr.Prisma.{Client, ◌>>=◌, ◌>>◌, return, throw}
use icedr.Transfers.State.{
  TransferTaskStatus, failed, expired, canceled, status_text, same_status,
  can_transition_transfer_task, get_transfer_task_transition_sources, TransferTaskFailureCode,
  upload_failed, upload_session_expired, failure_code_text, has_elapsed,
}
use icedr.Transfers.Tables.{
  TransferTask, UploadSession, AuditEvent, TransferDb, status_in, unexpired, claim_is_free,
}
use icedr.Files.UploadSessions.{
  SessionError, transfer_state_conflict, session_state_conflict, UploadSessionResponse,
  map_upload_session, SessionAction, update_transfers, update_sessions, find_transfer, find_session,
  catch_conflict, record_upload_transfer_audit,
}

-- What an ending stores: a status, with the failure code of both rows.
pub record Ending : Type 0 where
  pub status : TransferTaskStatus
  pub failure_code : Option String
  pub action : String
  pub audit_metadata : List (String × String)

-- `getTransferTaskTransitionSources(status).filter((source) => source !== status)`
unfoldable pub other_sources : TransferTaskStatus → List TransferTaskStatus
other_sources status =
    filter (λ source. not (same_status source status)) (get_transfer_task_transition_sources status)

-- A transfer may expire at any time; it fails or is canceled only before its expiry.
abbrev pub transfer_can_end : String → Ending → ℕ → TransferTask → Bool
transfer_can_end transfer_id ending now row =
    str_eq row.id transfer_id
    && str_eq row.transfer_type "upload"
    && status_in (other_sources ending.status) row.status
    && (same_status ending.status expired || unexpired row.expires_at now)

abbrev pub transfer_ended : Ending → ℕ → TransferTask → TransferTask
transfer_ended ending now row = record row {
  status = status_text ending.status;
  failure_code = ending.failure_code;
  updated_at = now;
}

-- The expiry that a session must have: past if it expires, and otherwise not.
abbrev pub session_time_permits : TransferTaskStatus → UploadSession → ℕ → Bool
session_time_permits expired row now = has_elapsed row.expires_at now
session_time_permits _ row now = unexpired row.expires_at now

abbrev pub session_can_end : String → String → Ending → ℕ → UploadSession → Bool
session_can_end id stored ending now row =
    str_eq row.id id
    && str_eq row.status stored
    && session_time_permits ending.status row now
    && claim_is_free row now

abbrev pub session_ended : Ending → ℕ → UploadSession → UploadSession
session_ended ending now row = record row {
  status = status_text ending.status;
  failure_code = ending.failure_code;
  completion_token = none;
  completion_started_at = none;
  updated_at = now;
}

abbrev first : {A : Type 0} → List A → Option A
first [] = none
first (row ∷ rows) = some row

module _ (prisma : Client) (draw_id : List AuditEvent → String) (now : ℕ) where
  -- Where not exactly one transfer changed, one that has ended so before stands for it, and nothing
  -- is audited. Whether its failure code is compared is the caller's.
  unfoldable pub changed_transfer :
      (TransferTask → Bool) → List TransferTask → SessionAction (Option TransferTask)
  changed_transfer ended_before (row ∷ []) = return (some row)
  changed_transfer ended_before _ = do
    found ← find_transfer prisma ended_before
    elim found [ none ↦ throw transfer_state_conflict | some _ ↦ return none ]

  end_session : Bool → String → String → Ending → SessionAction (Option UploadSession)
  end_session true id stored ending = find_session prisma λ row.
      str_eq row.id id
      && str_eq row.status (status_text ending.status)
      && same_text row.failure_code ending.failure_code
  end_session false id stored ending = do
    rows ← update_sessions prisma (session_can_end id stored ending now) (session_ended ending now)
    return (first rows)

  assert_ended : Ending → Option UploadSession → SessionAction UploadSession
  assert_ended ending none = throw session_state_conflict
  assert_ended ending (some row) =
      if str_eq row.status (status_text ending.status)
      then return row
      else throw session_state_conflict

  audit_ending : Ending → Option TransferTask → SessionAction (Unit {0})
  audit_ending ending none = return tt
  audit_ending ending (some transfer) =
      record_upload_transfer_audit prisma draw_id ending.action transfer ending.audit_metadata now

  -- The transaction of both operations. `already` says that the session had ended so before, and
  -- `stored` is the status that it must still have if it had not.
  unfoldable pub ending_transaction :
      UploadSession
      → Ending
      → (TransferTask → Bool)
      → Bool
      → String
      → SessionAction (Option UploadSessionResponse)
  unfolding changed_transfer end_session assert_ended audit_ending
  ending_transaction current ending ended_before already stored = do
    transfer_rows ←
        update_transfers prisma (transfer_can_end current.transfer_id ending now)
          (transfer_ended ending now)
    changed ← changed_transfer ended_before transfer_rows
    found ← end_session already current.id stored ending
    row ← assert_ended ending found
    audit_ending ending changed
    return (some (map_upload_session row now))

  unfoldable pub run_ending :
      UploadSession
      → Ending
      → (TransferTask → Bool)
      → Bool
      → String
      → SessionAction (Option UploadSessionResponse)
  unfolding ending_transaction
  run_ending current ending ended_before already stored db = catch_conflict (
      prisma.transaction SessionError (Option UploadSessionResponse) TransferDb
        (ending_transaction current ending ended_before already stored) db)
