-- ===== src/Transfers/Repository.antt =====
-- backend/src/modules/downloads/transfers/transfers.repository.ts: what is read from a row, and the
-- `where` and `data` clauses of an update. The clock is read once in a call, as `now`.
pub mod Updates
pub mod Audit
pub mod Operations
pub mod Deletions
pub mod Advance
pub mod Committed
use icedr.Prelude.{
  ℕ, ◌+◌, String, Bool, true, false, not, ◌&&◌, ◌||◌, Option, none, some, List, [], ◌∷◌,
  if◌then◌else◌, leb, ltb, ◌==◌, min, get_or, is_none, is_some, same_text, str_eq, filter, contains,
}
use icedr.Transfers.State.{
  TransferTaskStatus, pending, running, paused, completed, failed, expired, canceled, status_text,
  same_status, TransferTaskFailureCode, transfer_failed, transfer_expired, TransferTaskLifecycle,
  create_transfer_task_lifecycle, get_transfer_task_transition_sources,
  is_terminal_transfer_task_status, normalize_transfer_task_status,
}
use icedr.Transfers.Tables.{TransferTask, status_in, unexpired, owned_by, differs_from, code_text}

-- A number that is not finite, or below 0, or the integer `Math.round(value * 10)`.
pub data ProgressValue : Type 0 where
  not_finite : ProgressValue
  negative : ProgressValue
  tenths : ℕ → ProgressValue

pub record TransferUpdateInput : Type 0 where
  pub status : Option TransferTaskStatus
  pub expected_status : Option TransferTaskStatus
  pub failure_code : Option TransferTaskFailureCode
  pub progress : Option ProgressValue
  pub node_id : Option String
  pub audit_metadata : List (String × String)

pub record TransferResponse : Type 0 where
  pub id : String
  pub workspace_id : String
  pub owner_user_id : Option String
  pub node_id : Option String
  pub object_key : Option String
  pub name : String
  pub type : String
  pub progress : ℕ
  pub lifecycle : TransferTaskLifecycle
  pub created_at : ℕ
  pub updated_at : ℕ

unfoldable pub map_row : TransferTask → ℕ → TransferResponse
map_row row now = record {
  id = row.id;
  workspace_id = row.workspace_id;
  owner_user_id = row.owner_user_id;
  node_id = row.node_id;
  object_key = row.object_key;
  name = row.name;
  type = row.transfer_type;
  progress = row.progress;
  lifecycle =
      create_transfer_task_lifecycle
        (record {
          status = row.status;
          failure_code = row.failure_code;
          failure_message = none;
          created_at = row.created_at;
          updated_at = row.updated_at;
          expires_at = row.expires_at;
        })
        now;
  created_at = row.created_at;
  updated_at = row.updated_at;
}

-- In tenths: between 0 and 100.0.
abbrev pub normalize_progress : ProgressValue → ℕ
normalize_progress not_finite = 0
normalize_progress negative = 0
normalize_progress (tenths n) = min 1000 n

-- The failure code that an update to a status stores.
abbrev pub requested_failure_code :
    TransferTaskStatus → Option TransferTaskFailureCode → Option TransferTaskFailureCode
requested_failure_code failed code = some (get_or code transfer_failed)
requested_failure_code expired code = some (get_or code transfer_expired)
requested_failure_code _ code = none

abbrev pub is_upload_of : String → Option String → TransferTask → Bool
is_upload_of id owner row =
    str_eq row.id id && str_eq row.transfer_type "upload" && owned_by owner row.owner_user_id

-- The `data` of an update.
abbrev pub set_status :
    Option TransferTaskStatus → Option TransferTaskFailureCode → TransferTask → TransferTask
set_status none code row = row
set_status (some status) code row = record row {
  status = status_text status;
  failure_code = code_text (requested_failure_code status code);
}

abbrev pub set_progress : Option ProgressValue → TransferTask → TransferTask
set_progress none row = row
set_progress (some value) row = record row { progress = normalize_progress value }

abbrev pub set_node : Option String → TransferTask → TransferTask
set_node none row = row
set_node (some node) row = record row { node_id = some node }

abbrev pub updated : TransferUpdateInput → ℕ → TransferTask → TransferTask
updated input now row = set_node input.node_id (
    set_progress input.progress
      (set_status input.status input.failure_code (record row { updated_at = now })))

-- `NOT: { ... }`: one of the columns differs from what is to be stored.
abbrev pub status_differs :
    Option TransferTaskStatus → Option TransferTaskFailureCode → TransferTask → Bool
status_differs none code row = false
status_differs (some status) code row =
    not (str_eq row.status (status_text status))
    || differs_from row.failure_code (code_text (requested_failure_code status code))

abbrev pub progress_differs : Option ProgressValue → TransferTask → Bool
progress_differs none row = false
progress_differs (some value) row = not (row.progress == normalize_progress value)

abbrev pub node_differs : Option String → TransferTask → Bool
node_differs none row = false
node_differs (some node) row = differs_from row.node_id (some node)

abbrev pub progress_at_most : Option ProgressValue → TransferTask → Bool
progress_at_most none row = true
progress_at_most (some value) row = leb row.progress (normalize_progress value)

-- `source !== status || !isTerminalTransferTaskStatus(status)`
abbrev pub is_new_or_open : TransferTaskStatus → TransferTaskStatus → Bool
is_new_or_open status source =
    not (same_status source status) || not (is_terminal_transfer_task_status status)

abbrev pub open_statuses : List TransferTaskStatus
open_statuses = pending ∷ running ∷ paused ∷ failed ∷ []

unfoldable pub update_sources : TransferTaskStatus → List TransferTaskStatus
update_sources status =
    if same_status status running
    then pending ∷ running ∷ []
    else filter (is_new_or_open status) (get_transfer_task_transition_sources status)

unfoldable pub status_allows :
    Option TransferTaskStatus → Option TransferTaskStatus → TransferTask → Bool
status_allows status (some wanted) row = str_eq row.status (status_text wanted)
status_allows (some status) none row = status_in (update_sources status) row.status
status_allows none none row = status_in open_statuses row.status

unfoldable pub expiry_allows : Option TransferTaskStatus → TransferTask → ℕ → Bool
expiry_allows none row now = unexpired row.expires_at now
expiry_allows (some expired) row now = true
expiry_allows (some completed) row now =
    str_eq row.status (status_text completed) || unexpired row.expires_at now
expiry_allows (some canceled) row now =
    str_eq row.status (status_text canceled) || unexpired row.expires_at now
expiry_allows (some _) row now = unexpired row.expires_at now

unfoldable pub is_updatable : String → Option String → TransferUpdateInput → ℕ → TransferTask → Bool
is_updatable id owner input now row =
    is_upload_of id owner row
    && (status_differs input.status input.failure_code row
        || progress_differs input.progress row
        || node_differs input.node_id row)
    && progress_at_most input.progress row
    && status_allows input.status input.expected_status row
    && expiry_allows input.status row now

-- `isNoopUpdate`, on the row and what it is read as.
abbrev pub status_is_noop :
    Option TransferTaskStatus
    → Option TransferTaskFailureCode
    → TransferTask
    → TransferTaskLifecycle
    → Bool
status_is_noop (some status) code row current =
    str_eq row.status (status_text status)
    && same_status current.status status
    && same_text (code_text current.error_code) (code_text (requested_failure_code status code))
status_is_noop none code row current = not (is_terminal_transfer_task_status current.status)

abbrev pub node_is_noop : Option String → TransferTask → Bool
node_is_noop none row = true
node_is_noop (some node) row = same_text row.node_id (some node)

unfoldable pub is_noop_update : TransferTask → TransferUpdateInput → ℕ → Bool
is_noop_update row input now =
    status_is_noop input.status input.failure_code row (map_row row now).lifecycle
    && not (progress_differs input.progress row)
    && node_is_noop input.node_id row
