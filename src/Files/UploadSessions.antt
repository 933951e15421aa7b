-- ===== src/Files/UploadSessions.antt =====
-- backend/src/modules/files/upload-session-types.ts and upload-session-audit.ts, and the tests and
-- changes of rows that the stores of upload sessions share.
pub mod Lifecycle
pub mod Endings
pub mod Completion
use icedr.Prelude.{
  ℕ, ◌+◌, String, Bool, true, false, not, ◌&&◌, ◌||◌, Option, none, some, List, [], ◌∷◌,
  if◌then◌else◌, leb, ltb, ◌==◌, get_or, is_none, is_some, is_text, same_text, str_eq, length,
}
use icedr.Prisma.{Client, Outcome, resolved, thrown, Action}
use icedr.Transfers.State.{
  TransferTaskStatus, TransferTaskLifecycle, create_transfer_task_lifecycle, status_text,
  TransferTaskFailureCode,
}
use icedr.Transfers.Tables.{TransferTask, UploadSession, AuditEvent, TransferDb, unexpired}

pub data SessionError : Type 0 where
  transfer_state_conflict session_state_conflict unique_violation : SessionError
  write_claim_changed record_not_found : SessionError

-- `isUploadSessionConflict`
abbrev pub is_upload_session_conflict : SessionError → Bool
is_upload_session_conflict transfer_state_conflict = true
is_upload_session_conflict session_state_conflict = true
is_upload_session_conflict _ = false

-- What a session is read as: its columns, with the three that are computed.
pub record UploadSessionResponse : Type 0 where
  pub row : UploadSession
  pub requested_file_name : String
  pub lifecycle : TransferTaskLifecycle

unfoldable pub map_upload_session : UploadSession → ℕ → UploadSessionResponse
map_upload_session row now = record {
  row = row;
  requested_file_name = get_or row.target.requested_file_name row.target.file_name;
  lifecycle =
      create_transfer_task_lifecycle
        (record {
          status = row.status;
          failure_code = row.failure_code;
          failure_message = none;
          created_at = row.created_at;
          updated_at = row.updated_at;
          expires_at = row.expires_at;
        })
        now;
}

-- `recordUploadTransferAudit`: the event is made of the row as it is stored.
abbrev pub upload_audit_event :
    String → String → TransferTask → List (String × String) → ℕ → AuditEvent
upload_audit_event id action transfer extra now = record {
  id = id;
  action = action;
  actor = "workspace";
  target = transfer.id;
  workspace_id = some transfer.workspace_id;
  node_id = transfer.node_id;
  transfer_type = transfer.transfer_type;
  has_content = is_some transfer.object_key && not (is_text transfer.object_key "");
  status = transfer.status;
  failure_code = transfer.failure_code;
  result = if str_eq action "transfer.failed" then "failed" else "success";
  extra = extra;
  created_at = now;
}

abbrev pub SessionAction : Type 0 → Type 0
SessionAction A = Action TransferDb SessionError A

module _ (prisma : Client) where
  unfoldable pub record_upload_transfer_audit :
      (List AuditEvent → String)
      → String
      → TransferTask
      → List (String × String)
      → ℕ
      → SessionAction (Unit {0})
  record_upload_transfer_audit draw_id action transfer extra now db =
      let event = upload_audit_event (draw_id db.audits) action transfer extra now in
      elim (prisma.create AuditEvent (λ row. str_eq row.id event.id) event db.audits) [
        | none ↦ (thrown unique_violation, db)
        | some audits ↦ (resolved tt, record db { audits = audits })
      ]

  unfoldable pub update_transfers :
      (TransferTask → Bool) → (TransferTask → TransferTask) → SessionAction (List TransferTask)
  update_transfers test patch db =
      let (rows, returned) = prisma.update_many_and_return TransferTask test patch db.transfers in
      (resolved returned, record db { transfers = rows })

  unfoldable pub update_sessions :
      (UploadSession → Bool) → (UploadSession → UploadSession) → SessionAction (List UploadSession)
  update_sessions test patch db =
      let (rows, returned) = prisma.update_many_and_return UploadSession test patch db.sessions in
      (resolved returned, record db { sessions = rows })

  unfoldable pub find_transfer : (TransferTask → Bool) → SessionAction (Option TransferTask)
  find_transfer test db = (resolved (prisma.find_first TransferTask test db.transfers), db)

  unfoldable pub find_session : (UploadSession → Bool) → SessionAction (Option UploadSession)
  find_session test db = (resolved (prisma.find_first UploadSession test db.sessions), db)

-- `catch (error) { if (isUploadSessionConflict(error)) return null; throw error; }`
abbrev pub catch_conflict :
    {A : Type 0}
    → Outcome SessionError (Option A) × TransferDb
    → Outcome SessionError (Option A) × TransferDb
catch_conflict (resolved a, db) = (resolved a, db)
catch_conflict (thrown e, db) =
    (if is_upload_session_conflict e then resolved none else thrown e, db)
