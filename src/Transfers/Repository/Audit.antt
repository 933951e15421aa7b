-- ===== src/Transfers/Repository/Audit.antt =====
-- The audit events of transfers.repository.ts, and the `data` and `where` clauses of its transactions.
use icedr.Prelude.{
  ℕ, String, Bool, not, ◌&&◌, Option, none, some, List, [], ◌∷◌, if◌then◌else◌, ltb, is_some,
  is_text, str_eq, get_or, filter, contains,
}
use icedr.Prisma.{Client, resolved, thrown, Action, return}
use icedr.Transfers.State.{
  TransferTaskStatus, pending, running, paused, completed, failed, expired, canceled, status_text,
  same_status, get_transfer_task_transition_sources, TransferTaskFailureCode, transfer_stalled,
  upload_failed, upload_session_expired, failure_code_text,
}
use icedr.Transfers.Tables.{
  TransferTask, UploadSession, AuditEvent, TransferDb, status_in, unexpired, claim_is_free,
  claim_is_active, owned_by, code_text,
}
use icedr.Transfers.Repository.{
  ProgressValue, TransferUpdateInput, TransferResponse, normalize_progress, is_new_or_open,
}
use icedr.Transfers.Repository.Updates.{TransferError, unique_violation}

pub record NewTransfer : Type 0 where
  pub id : String
  pub workspace_id : String
  pub owner_user_id : Option String
  pub node_id : Option String
  pub object_key : Option String
  pub name : String
  pub progress : Option ProgressValue
  pub status : Option TransferTaskStatus
  pub expires_at : Option ℕ
  pub audit_metadata : List (String × String)

abbrev pub initial_progress : Option ProgressValue → ℕ
initial_progress none = 0
initial_progress (some value) = normalize_progress value

abbrev pub new_transfer : NewTransfer → ℕ → TransferTask
new_transfer input now = record {
  id = input.id;
  workspace_id = input.workspace_id;
  owner_user_id = input.owner_user_id;
  node_id = input.node_id;
  object_key = input.object_key;
  name = input.name;
  transfer_type = "upload";
  progress = initial_progress input.progress;
  status = status_text (get_or input.status running);
  failure_code = none;
  expires_at = input.expires_at;
  created_at = now;
  updated_at = now;
}

abbrev pub status_audit_action : Option TransferTaskStatus → Option String
status_audit_action (some completed) = some "transfer.completed"
status_audit_action (some failed) = some "transfer.failed"
status_audit_action (some paused) = some "transfer.paused"
status_audit_action (some canceled) = some "transfer.canceled"
status_audit_action (some expired) = some "transfer.expired"
status_audit_action _ = none

abbrev pub audit_event :
    String → String → String → TransferResponse → List (String × String) → ℕ → AuditEvent
audit_event id action actor transfer extra now = record {
  id = id;
  action = action;
  actor = actor;
  target = transfer.id;
  workspace_id = some transfer.workspace_id;
  node_id = transfer.node_id;
  transfer_type = transfer.type;
  has_content = is_some transfer.object_key && not (is_text transfer.object_key "");
  status = status_text transfer.lifecycle.status;
  failure_code = code_text transfer.lifecycle.error_code;
  result = if str_eq action "transfer.failed" then "failed" else "success";
  extra = extra;
  created_at = now;
}

-- The sources of a session's status in `syncUploadSessionStatus`.
unfoldable pub session_sources : TransferTaskStatus → List TransferTaskStatus
session_sources status =
    if same_status status running
    then pending ∷ running ∷ paused ∷ failed ∷ []
    else filter (is_new_or_open status) (get_transfer_task_transition_sources status)

abbrev pub session_failure_code :
    TransferTaskStatus → Option TransferTaskFailureCode → Option TransferTaskFailureCode
session_failure_code failed code = some (get_or code upload_failed)
session_failure_code expired code = some (get_or code upload_session_expired)
session_failure_code _ code = none

abbrev pub is_synced_session : String → TransferTaskStatus → ℕ → UploadSession → Bool
is_synced_session transfer_id status now row =
    str_eq row.transfer_id transfer_id
    && status_in (session_sources status) row.status
    && unexpired row.expires_at now
    && claim_is_free row now

-- The `data` with which a session takes a status and gives up its claim.
abbrev pub session_moved :
    TransferTaskStatus → Option TransferTaskFailureCode → ℕ → UploadSession → UploadSession
session_moved status code now row = record row {
  status = status_text status;
  failure_code = code_text code;
  completion_token = none;
  completion_started_at = none;
  updated_at = now;
}

-- The rows that `failStaleRunning` fails: `cutoff` is the time before which they were last touched.
unfoldable pub is_stale_running :
    ℕ → Option String → Option String → ℕ → List String → TransferTask → Bool
is_stale_running cutoff workspace owner now active row =
    not (contains active row.id)
    && str_eq row.status "running"
    && str_eq row.transfer_type "upload"
    && ltb row.updated_at cutoff
    && unexpired row.expires_at now
    && owned_by workspace (some row.workspace_id)
    && owned_by owner row.owner_user_id

abbrev pub stalled : ℕ → TransferTask → TransferTask
stalled now row = record row {
  status = "failed";
  failure_code = some (failure_code_text transfer_stalled);
  updated_at = now;
}

abbrev pub is_session_of_failed : List String → UploadSession → Bool
is_session_of_failed ids row =
    contains ids row.transfer_id
    && status_in (get_transfer_task_transition_sources failed) row.status

-- `status: { notIn: ['completed', 'expired', 'canceled'] }`
abbrev pub is_open_session : String → UploadSession → Bool
is_open_session transfer_id row =
    str_eq row.transfer_id transfer_id
    && not (contains ("completed" ∷ "expired" ∷ "canceled" ∷ []) row.status)

abbrev pub is_claimed_session : String → ℕ → UploadSession → Bool
is_claimed_session transfer_id now row =
    str_eq row.transfer_id transfer_id && claim_is_active row now

module _ (prisma : Client) (draw_id : List AuditEvent → String) (now : ℕ) where
  abbrev pub Run : Type 0 → Type 0
  Run A = Action TransferDb TransferError A

  unfoldable pub record_audit :
      String → String → TransferResponse → List (String × String) → Run (Unit {0})
  record_audit action actor transfer extra db =
      let event = audit_event (draw_id db.audits) action actor transfer extra now in
      elim (prisma.create AuditEvent (λ row. str_eq row.id event.id) event db.audits) [
        | none ↦ (thrown unique_violation, db)
        | some audits ↦ (resolved tt, record db { audits = audits })
      ]

  unfoldable pub record_update_audit :
      Option TransferResponse → TransferUpdateInput → Run (Unit {0})
  unfolding record_audit
  record_update_audit none input = return tt
  record_update_audit (some transfer) input = elim (status_audit_action input.status) [
    | none ↦ return tt
    | some action ↦ record_audit action "workspace" transfer input.audit_metadata
  ]
