-- ===== src/Files/UploadSessions/Endings/Requests.antt =====
-- `transitionFailure` and `cancel` of upload-session-lifecycle.ts: what they read and refuse before
-- the transaction in which a transfer and its session end.
use icedr.Prelude.{
  ℕ, String, Bool, true, false, not, ◌&&◌, Option, none, some, List, if◌then◌else◌, str_eq,
  same_text, get_or,
}
use icedr.Prisma.{Client, ◌>>=◌, return}
use icedr.Transfers.State.{
  TransferTaskStatus, failed, expired, canceled, status_text, can_transition_transfer_task,
  TransferTaskFailureCode, upload_failed, upload_session_expired, failure_code_text, has_elapsed,
}
use icedr.Transfers.Tables.{TransferTask, UploadSession, AuditEvent, TransferDb}
use icedr.Files.UploadSessions.{UploadSessionResponse, SessionAction, find_session}
use icedr.Files.UploadSessions.Endings.{Ending, run_ending}

module _ (prisma : Client) (draw_id : List AuditEvent → String) (now : ℕ) where
  -- The status is `failed` or `expired`: `expires` tells which.
  abbrev pub failure_ending :
      Bool → Option TransferTaskFailureCode → List (String × String) → Ending
  failure_ending true code extra = record {
    status = expired;
    failure_code = some (failure_code_text upload_session_expired);
    action = "transfer.expired";
    audit_metadata = extra;
  }
  failure_ending false code extra = record {
    status = failed;
    failure_code = some (failure_code_text (get_or code upload_failed));
    action = "transfer.failed";
    audit_metadata = extra;
  }

  abbrev pub ended_with_code : UploadSession → Ending → TransferTask → Bool
  ended_with_code current ending row =
      str_eq row.id current.transfer_id
      && str_eq row.transfer_type "upload"
      && str_eq row.status (status_text ending.status)
      && same_text row.failure_code ending.failure_code

  unfoldable pub fail_found :
      Bool
      → Ending
      → (TransferDb → TransferDb)
      → Option UploadSession
      → SessionAction (Option UploadSessionResponse)
  unfolding run_ending
  fail_found expires ending between none = return none
  fail_found expires ending between (some current) =
      let already =
        str_eq current.status (status_text ending.status)
        && same_text current.failure_code ending.failure_code in
      let elapsed = has_elapsed current.expires_at now in
      if not already
        && not (can_transition_transfer_task current.status (status_text ending.status))
      then return none
      else if not (if expires then elapsed else not elapsed)
      then return none
      else (λ db.
          run_ending prisma draw_id now current ending (ended_with_code current ending) already
            current.status (between db))

  unfoldable pub transition_failure :
      String
      → Bool
      → Option TransferTaskFailureCode
      → List (String × String)
      → (between : TransferDb → TransferDb) → SessionAction (Option UploadSessionResponse)
  unfolding fail_found
  transition_failure id expires code extra between = do
    current ← find_session prisma (λ row. str_eq row.id id)
    fail_found expires (failure_ending expires code extra) between current

  abbrev pub cancel_ending : List (String × String) → Ending
  cancel_ending extra = record {
    status = canceled;
    failure_code = none;
    action = "transfer.canceled";
    audit_metadata = extra;
  }

  abbrev pub ended_with_status : UploadSession → Ending → TransferTask → Bool
  ended_with_status current ending row =
      str_eq row.id current.transfer_id
      && str_eq row.transfer_type "upload"
      && str_eq row.status (status_text ending.status)

  unfoldable pub cancel_found :
      TransferTaskStatus
      → Ending
      → (TransferDb → TransferDb)
      → Option UploadSession
      → SessionAction (Option UploadSessionResponse)
  unfolding run_ending
  cancel_found expected ending between none = return none
  cancel_found expected ending between (some current) =
      let already = str_eq current.status "canceled" in
      if not already && not (str_eq current.status (status_text expected))
      then return none
      else (λ db.
          run_ending prisma draw_id now current ending (ended_with_status current ending) already
            (status_text expected) (between db))

  unfoldable pub cancel :
      String
      → TransferTaskStatus
      → List (String × String)
      → (between : TransferDb → TransferDb) → SessionAction (Option UploadSessionResponse)
  unfolding cancel_found
  cancel id expected extra between =
      if not (can_transition_transfer_task (status_text expected) "canceled")
      then return none
      else (do
        current ← find_session prisma (λ row. str_eq row.id id)
        cancel_found expected (cancel_ending extra) between current)
