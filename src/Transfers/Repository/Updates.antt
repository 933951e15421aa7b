-- ===== src/Transfers/Repository/Updates.antt =====
-- `updateWithClient`, `update`, `updateUserControlled`, the two deletions and `failStaleRunning` of
-- transfers.repository.ts. The ids of audit events, which the code draws at random, come from
-- `draw_id`, given the events that there are.
use icedr.Prelude.{
  ℕ, String, Bool, true, false, not, ◌&&◌, ◌||◌, Option, none, some, List, [], ◌∷◌, if◌then◌else◌,
  leb, ltb, is_none, is_some, str_eq, any,
}
use icedr.Prisma.{Client, resolved, Action}
use icedr.Transfers.State.{
  TransferTaskStatus, status_text, same_status, can_transition_transfer_task,
  is_terminal_transfer_task_status, normalize_transfer_task_status,
}
use icedr.Transfers.Tables.{TransferTask, TransferDb}
use icedr.Transfers.Repository.{
  TransferUpdateInput, TransferResponse, map_row, normalize_progress, is_upload_of, updated,
  is_updatable, is_noop_update, open_statuses,
}

pub data TransferError : Type 0 where
  active_upload_operation state_conflict unique_violation : TransferError

-- What `updateWithClient` returns, and `mutation.changed`.
abbrev pub Update : Type 0
Update = Option TransferResponse × Bool

-- The outcome of one pass over `updateWithClient`: its result, or its call of itself without the
-- progress.
pub data Pass : Type 0 where
  done : Update → Pass
  again : Pass

-- `input.status && input.expectedStatus && !canTransition(...)`
abbrev pub expects_impossible : Option TransferTaskStatus → Option TransferTaskStatus → Bool
expects_impossible (some status) (some wanted) =
    not (can_transition_transfer_task (status_text wanted) (status_text status))
expects_impossible _ _ = false

abbrev pub is_terminal_request : Option TransferTaskStatus → Bool
is_terminal_request none = false
is_terminal_request (some status) = is_terminal_transfer_task_status status

abbrev pub already_at : Option TransferTask → Option TransferTaskStatus → Bool
already_at (some row) (some status) = same_status (normalize_transfer_task_status row.status) status
already_at _ _ = false

abbrev pub expects_itself : Option TransferTaskStatus → Option TransferTaskStatus → Bool
expects_itself (some status) (some wanted) = same_status wanted status
expects_itself _ _ = false

abbrev pub has_update : TransferUpdateInput → Bool
has_update input = is_some input.status || is_some input.progress || is_some input.node_id

abbrev pub response_of : ℕ → Option TransferTask → Option TransferResponse
response_of now none = none
response_of now (some row) = some (map_row row now)

abbrev pub reaches_progress : TransferUpdateInput → TransferTask → Bool
reaches_progress input row = elim input.progress [
  | none ↦ false
  | some value ↦ leb (normalize_progress value) row.progress
]

abbrev pub exceeds_progress : TransferUpdateInput → TransferTask → Bool
exceeds_progress input row = elim input.progress [
  | none ↦ false
  | some value ↦ ltb (normalize_progress value) row.progress
]

abbrev pub is_progress_only : TransferUpdateInput → Bool
is_progress_only input = is_some input.progress && is_none input.status && is_none input.node_id

abbrev pub is_open : TransferResponse → Bool
is_open current = any (same_status current.lifecycle.status) open_statuses

-- What follows when the update did not change exactly one row.
unfoldable pub missed_update : TransferUpdateInput → ℕ → Option TransferTask → Pass
missed_update input now none = done (none, false)
missed_update input now (some row) =
    let current = map_row row now in
    if is_noop_update row input now
    then done (some current, false)
    else if is_progress_only input && reaches_progress input row && is_open current
    then done (some current, false)
    else if is_some input.progress && is_some input.status && exceeds_progress input row
    then again
    else done (none, false)

-- `if (input.status && row.status !== input.status) return null`
abbrev pub has_requested_status : Option TransferTaskStatus → TransferTask → Bool
has_requested_status none row = true
has_requested_status (some status) row = str_eq row.status (status_text status)

module _ (prisma : Client) where
  abbrev pub find_row_by_id : String → Option String → List TransferTask → Option TransferTask
  find_row_by_id id owner = prisma.find_first TransferTask (is_upload_of id owner)

  -- The part behind the update, on the rows that it returned.
  updated_rows :
      String
      → Option String
      → TransferUpdateInput
      → ℕ
      → List TransferTask
      → List TransferTask
      → Pass
  updated_rows id owner input now (row ∷ []) rows =
      if has_requested_status input.status row
      then done (some (map_row row now), true)
      else done (none, false)
  updated_rows id owner input now _ rows = missed_update input now (find_row_by_id id owner rows)

  unfoldable pub update_pass :
      String
      → Option String
      → TransferUpdateInput
      → ℕ
      → List TransferTask
      → Pass × List TransferTask
  unfolding updated_rows
  update_pass id owner input now rows =
      let current = find_row_by_id id owner rows in
      let (after, returned) =
        prisma.update_many_and_return TransferTask (is_updatable id owner input now)
          (updated input now) rows in
      let attempt : Pass × List TransferTask =
        (updated_rows id owner input now returned after, after) in
      if expects_impossible input.status input.expected_status
      then (done (none, false), rows)
      else if is_terminal_request input.status && already_at current input.status
      then (done (response_of now current, false), rows)
      else if is_terminal_request input.status && expects_itself input.status input.expected_status
      then (done (none, false), rows)
      else if not (has_update input)
      then (done (response_of now current, false), rows)
      else attempt

  -- The call without the progress does not call itself again.
  abbrev pub second_pass : Pass × List TransferTask → Update × List TransferTask
  second_pass (done update, rows) = (update, rows)
  second_pass (again, rows) = ((none, false), rows)

  abbrev pub first_pass :
      String
      → Option String
      → TransferUpdateInput
      → ℕ
      → Pass × List TransferTask
      → Update × List TransferTask
  first_pass id owner input now (done update, rows) = (update, rows)
  first_pass id owner input now (again, rows) =
      second_pass (update_pass id owner (record input { progress = none }) now rows)

  unfoldable pub update_with_client :
      String → Option String → TransferUpdateInput → ℕ → Action TransferDb TransferError Update
  update_with_client id owner input now db =
      let (update, rows) =
        first_pass id owner input now (update_pass id owner input now db.transfers) in
      (resolved update, record db { transfers = rows })
