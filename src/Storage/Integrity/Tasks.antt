-- ===== src/Storage/Integrity/Tasks.antt =====
-- backend/src/modules/storage/storage-integrity-task.repository.ts: the queue of integrity tasks. A
-- task runs under a lease, whose key is unique in the table. The hash of a task's input and the ids of
-- rows are arguments, and so is the query for the oldest queued task. `between` is what other requests
-- write between two statements.
pub mod Operations
pub mod History
pub mod Kept
pub mod Exclusive
pub mod Fenced
pub mod Claims
pub mod Completed
use icedr.Prelude.{
  ℕ, ◌+◌, ◌≡◌, String, Bool, true, false, not, ◌&&◌, ◌||◌, Option, none, some, List, [], ◌∷◌,
  if◌then◌else◌, leb, ltb, ◌==◌, str_eq, length, find?, any, all, is_none, is_some, is_text,
  same_text, get_or,
}
use icedr.Prisma.{
  Client, Updated, changed, not_found, clashed, Outcome, resolved, thrown, Action, ◌>>=◌, return,
}

pub record IntegrityProgress : Type 0 where
  pub bytes_read : ℕ
  pub failed : ℕ
  pub matched : ℕ
  pub mismatches : ℕ
  pub processed : ℕ
  pub total : ℕ

abbrev pub empty_progress : IntegrityProgress
empty_progress = record {
  bytes_read = 0;
  failed = 0;
  matched = 0;
  mismatches = 0;
  processed = 0;
  total = 0;
}

-- A row of blob_integrity_tasks, without the configuration and the target of the check. The cursor is
-- a kind and an id.
pub record IntegrityTask : Type 0 where
  pub id : String
  pub active_key : Option String
  pub actor_user_id : Option String
  pub status : String
  pub scope : String
  pub workspace_id : Option String
  pub mode : String
  pub progress : IntegrityProgress
  pub cursor : Option (String × String)
  pub lease_key : Option String
  pub lease_owner : Option String
  pub lease_expires_at : Option ℕ
  pub failure_code : Option String
  pub failure_message : Option String
  pub target_count : Option ℕ
  pub created_at : ℕ
  pub started_at : Option ℕ
  pub finished_at : Option ℕ

-- An audit event of a task. The metadata are the fields from the mode on.
pub record IntegrityEvent : Type 0 where
  pub id : String
  pub action : String
  pub actor : String
  pub target : String
  pub workspace_id : Option String
  pub mode : String
  pub actor_user_id : Option String
  pub error_code : Option String
  pub progress : IntegrityProgress
  pub result : String
  pub scope : String
  pub created_at : ℕ

pub record IntegrityDb : Type 0 where
  pub tasks : List IntegrityTask
  pub events : List IntegrityEvent

-- The id of an audit event that is taken.
pub data IntegrityError : Type 0 where
  event_exists : IntegrityError

abbrev pub IntegrityAction : Type 0 → Type 0
IntegrityAction A = Action IntegrityDb IntegrityError A

pub record ClaimInput : Type 0 where
  pub lease_expires_at : ℕ
  pub lease_owner : String
  pub now : ℕ

pub data CompletionStatus : Type 0 where
  completed failed : CompletionStatus

pub record CompletionInput : Type 0 where
  pub actor_user_id : Option String
  pub failure_code : Option String
  pub failure_message : Option String
  pub mode : String
  pub progress : IntegrityProgress
  pub scope : String
  pub status : CompletionStatus
  pub workspace_id : Option String

pub record NewTaskInput : Type 0 where
  pub actor_user_id : Option String
  pub mode : String
  pub scope : String
  pub workspace_id : Option String

abbrev pub is_queued : IntegrityTask → Bool
is_queued row = str_eq row.status "queued"

abbrev pub is_running : IntegrityTask → Bool
is_running row = str_eq row.status "running"

-- A nullable date that is there and not after another.
abbrev pub is_by : ℕ → Option ℕ → Bool
is_by now none = false
is_by now (some t) = leb t now

abbrev pub is_later : ℕ → Option ℕ → Bool
is_later now none = false
is_later now (some t) = ltb now t

abbrev pub lease_has_expired : ℕ → IntegrityTask → Bool
lease_has_expired now row = is_by now row.lease_expires_at && is_running row

-- The `where` of `renewLease` and `requeueOwnedTask`, and that of the operations that read the clock.
abbrev pub is_owned : String → String → IntegrityTask → Bool
is_owned id lease_owner row =
    str_eq row.id id && is_text row.lease_owner lease_owner && is_running row

abbrev pub is_held : String → String → ℕ → IntegrityTask → Bool
is_held id lease_owner now row = is_owned id lease_owner row && is_later now row.lease_expires_at

abbrev pub requeued : IntegrityTask → IntegrityTask
requeued row = record row {
  lease_expires_at = none;
  lease_key = none;
  lease_owner = none;
  status = "queued";
}

abbrev pub task_claimed : ClaimInput → Option ℕ → IntegrityTask → IntegrityTask
task_claimed input started_at row = record row {
  lease_expires_at = some input.lease_expires_at;
  lease_key = some "storage-integrity";
  lease_owner = some input.lease_owner;
  started_at = some (get_or started_at input.now);
  status = "running";
}

-- Two rows with the same lease key, which is unique.
abbrev pub lease_clash : IntegrityTask → IntegrityTask → Bool
lease_clash row other =
    not (str_eq row.id other.id) && is_some row.lease_key && same_text row.lease_key other.lease_key

abbrev pub counted_targets : ℕ → IntegrityProgress → IntegrityTask → IntegrityTask
counted_targets target_count progress row = record row {
  progress = record progress { total = target_count };
  target_count = some target_count;
}

abbrev pub completion_status_text : CompletionStatus → String
completion_status_text completed = "completed"
completion_status_text failed = "failed"

abbrev pub task_completed : CompletionInput → ℕ → IntegrityTask → IntegrityTask
task_completed input now row = record row {
  failure_code = input.failure_code;
  active_key = none;
  failure_message = input.failure_message;
  finished_at = some now;
  lease_expires_at = none;
  lease_key = none;
  lease_owner = none;
  progress = input.progress;
  status = completion_status_text input.status;
}

-- `text ? … : …` on a nullable text
abbrev pub is_truthy : Option String → Bool
is_truthy none = false
is_truthy (some t) = not (str_eq t "")

abbrev pub if_truthy : Option String → Option String
if_truthy t = if is_truthy t then t else none

abbrev pub completion_action : CompletionStatus → String
completion_action completed = "system.storage_integrity_task_completed"
completion_action failed = "system.storage_integrity_task_failed"

abbrev pub completion_result : CompletionStatus → IntegrityProgress → String
completion_result completed progress =
    if progress.mismatches == 0 && progress.failed == 0 then "success" else "failed"
completion_result failed progress = "failed"

abbrev pub completion_event : CompletionInput → String → ℕ → String → IntegrityEvent
completion_event input task_id now id = record {
  id = id;
  action = completion_action input.status;
  actor = if is_truthy input.actor_user_id then "account" else "system";
  target = task_id;
  workspace_id = input.workspace_id;
  mode = input.mode;
  actor_user_id = if_truthy input.actor_user_id;
  error_code = if_truthy input.failure_code;
  progress = input.progress;
  result = completion_result input.status input.progress;
  scope = input.scope;
  created_at = now;
}

abbrev pub new_task : String → NewTaskInput → String → ℕ → IntegrityTask
new_task active_key input id now = record {
  id = id;
  active_key = some active_key;
  actor_user_id = input.actor_user_id;
  status = "queued";
  scope = input.scope;
  workspace_id = input.workspace_id;
  mode = input.mode;
  progress = empty_progress;
  cursor = none;
  lease_key = none;
  lease_owner = none;
  lease_expires_at = none;
  failure_code = none;
  failure_message = none;
  target_count = none;
  created_at = now;
  started_at = none;
  finished_at = none;
}
