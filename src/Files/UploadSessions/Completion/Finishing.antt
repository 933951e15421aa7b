-- ===== src/Files/UploadSessions/Completion/Finishing.antt =====
-- `complete`, `fail` and `cancel` of upload-session-completion.ts: the holder of the claim ends the
-- session and its transfer in one transaction.
use icedr.Prelude.{
  ℕ, String, Bool, true, false, ◌&&◌, Option, none, some, List, is_text, same_text, str_eq,
}
use icedr.Prisma.{Client, ◌>>=◌, ◌>>◌, return}
use icedr.Transfers.State.{
  TransferTaskStatus, completed, failed, expired, canceled, status_text, TransferTaskFailureCode,
  upload_session_expired, failure_code_text, has_elapsed,
}
use icedr.Transfers.Tables.{
  TransferTask, UploadSession, AuditEvent, TransferDb, status_in, unexpired,
}
use icedr.Files.UploadSessions.{
  UploadSessionResponse, map_upload_session, SessionAction, update_transfers, update_sessions,
  record_upload_transfer_audit,
}
use icedr.Files.UploadSessions.Endings.{other_sources, changed_transfer}
use icedr.Files.UploadSessions.Completion.{owns, find_session_by_id, assert_session, in_transaction}

-- What the holder asks for: `fails` has the code, and whether the session that was read had expired.
pub data Finish : Type 0 where
  completes : String → Finish
  fails : TransferTaskFailureCode → Bool → Finish
  cancels : Finish

abbrev pub finish_status : Finish → TransferTaskStatus
finish_status (completes node_id) = completed
finish_status (fails code true) = expired
finish_status (fails code false) = failed
finish_status cancels = canceled

abbrev pub finish_code : Finish → Option String
finish_code (fails code true) = some (failure_code_text upload_session_expired)
finish_code (fails code false) = some (failure_code_text code)
finish_code _ = none

abbrev pub finish_action : Finish → String
finish_action (completes node_id) = "transfer.completed"
finish_action (fails code true) = "transfer.expired"
finish_action (fails code false) = "transfer.failed"
finish_action cancels = "transfer.canceled"

-- The tests on expiry: only a failure has them.
abbrev pub transfer_in_time : Finish → ℕ → Option ℕ → Bool
transfer_in_time (fails code false) now expires_at = unexpired expires_at now
transfer_in_time _ now expires_at = true

abbrev pub session_in_time : Finish → ℕ → Option ℕ → Bool
session_in_time (fails code true) now expires_at = has_elapsed expires_at now
session_in_time (fails code false) now expires_at = unexpired expires_at now
session_in_time _ now expires_at = true

abbrev pub transfer_can_finish : String → Finish → ℕ → TransferTask → Bool
transfer_can_finish transfer_id finish now row =
    str_eq row.id transfer_id
    && str_eq row.transfer_type "upload"
    && status_in (other_sources (finish_status finish)) row.status
    && transfer_in_time finish now row.expires_at

-- Progress is complete at 1000 tenths.
abbrev pub finish_progress : Finish → ℕ → ℕ
finish_progress (completes node_id) progress = 1000
finish_progress _ progress = progress

abbrev pub finish_node : Finish → Option String → Option String
finish_node (completes node_id) column = some node_id
finish_node _ column = column

abbrev pub transfer_finished : Finish → ℕ → TransferTask → TransferTask
transfer_finished finish now row = record row {
  status = status_text (finish_status finish);
  failure_code = finish_code finish;
  progress = finish_progress finish row.progress;
  node_id = finish_node finish row.node_id;
  updated_at = now;
}

-- What a transfer that was finished before has besides its status.
abbrev pub finished_details : Finish → TransferTask → Bool
finished_details (completes node_id) row = is_text row.node_id node_id
finished_details (fails code elapsed) row =
    same_text row.failure_code (finish_code (fails code elapsed))
finished_details cancels row = true

abbrev pub transfer_was_finished : String → Finish → TransferTask → Bool
transfer_was_finished transfer_id finish row =
    str_eq row.id transfer_id
    && str_eq row.transfer_type "upload"
    && str_eq row.status (status_text (finish_status finish))
    && finished_details finish row

abbrev pub session_has_node : Finish → Option String → Bool
session_has_node (completes node_id) column = is_text column node_id
session_has_node _ column = true

abbrev pub session_can_finish : String → String → Finish → ℕ → UploadSession → Bool
session_can_finish id token finish now row =
    owns id token row
    && session_has_node finish row.node_id
    && session_in_time finish now row.expires_at

abbrev pub session_finished : Finish → ℕ → UploadSession → UploadSession
session_finished finish now row = record row {
  status = status_text (finish_status finish);
  failure_code = finish_code finish;
  completion_token = none;
  completion_started_at = none;
  updated_at = now;
}

module _ (prisma : Client) (draw_id : List AuditEvent → String) (now : ℕ) where
  unfoldable pub audit_finish :
      Finish → List (String × String) → Option TransferTask → SessionAction (Unit {0})
  audit_finish finish extra none = return tt
  audit_finish finish extra (some transfer) =
      record_upload_transfer_audit prisma draw_id (finish_action finish) transfer extra now

  unfoldable pub finish_transaction :
      UploadSession
      → String
      → Finish
      → List (String × String)
      → SessionAction (Option UploadSessionResponse)
  unfolding changed_transfer assert_session audit_finish
  finish_transaction session token finish extra = do
    transfer_rows ←
        update_transfers prisma (transfer_can_finish session.transfer_id finish now)
          (transfer_finished finish now)
    changed ←
        changed_transfer prisma draw_id now (transfer_was_finished session.transfer_id finish)
          transfer_rows
    rows ←
        update_sessions prisma (session_can_finish session.id token finish now)
          (session_finished finish now)
    row ←
        assert_session prisma now (λ row. str_eq row.status (status_text (finish_status finish)))
          rows
    audit_finish finish extra changed
    return (some (map_upload_session row now))

  unfoldable pub finish_found :
      String
      → (UploadSession → Finish)
      → List (String × String)
      → (TransferDb → TransferDb)
      → Option UploadSession
      → SessionAction (Option UploadSessionResponse)
  unfolding finish_transaction
  finish_found token finish_of extra between none = return none
  finish_found token finish_of extra between (some session) = λ db.
      in_transaction prisma now (finish_transaction session token (finish_of session) extra)
        (between db)

  unfoldable pub complete :
      String
      → String
      → String
      → List (String × String)
      → (between : TransferDb → TransferDb) → SessionAction (Option UploadSessionResponse)
  unfolding find_session_by_id finish_found
  complete id token node_id extra between = do
    session ← find_session_by_id prisma now id
    finish_found token (λ _. completes node_id) extra between session

  unfoldable pub fail :
      String
      → String
      → TransferTaskFailureCode
      → List (String × String)
      → (between : TransferDb → TransferDb) → SessionAction (Option UploadSessionResponse)
  unfolding find_session_by_id finish_found
  fail id token code extra between = do
    session ← find_session_by_id prisma now id
    finish_found token (λ row. fails code (has_elapsed row.expires_at now)) extra between session

  unfoldable pub cancel :
      String
      → String
      → List (String × String)
      → (between : TransferDb → TransferDb) → SessionAction (Option UploadSessionResponse)
  unfolding find_session_by_id finish_found
  cancel id token extra between = do
    session ← find_session_by_id prisma now id
    finish_found token (λ _. cancels) extra between session
