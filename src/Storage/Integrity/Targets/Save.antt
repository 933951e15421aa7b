-- ===== src/Storage/Integrity/Targets/Save.antt =====
-- `saveResult` of storage-integrity-task.repository.ts, a transaction under the lease of the task.
use icedr.Prelude.{
  ℕ, String, Bool, true, false, ◌&&◌, ◌||◌, Option, none, some, List, if◌then◌else◌, ◌==◌, length,
  str_eq, is_text, same_text, is_some, ◌∷◌,
}
use icedr.Prisma.{Client, resolved, thrown, ◌>>=◌, return}
use icedr.Storage.Integrity.Tasks.{IntegrityTask, is_held}
use icedr.Storage.Integrity.Targets.{
  IntegrityResultStatus, mismatch, failed, TargetReference, BlobNode, BlobVersion, IntegrityResult,
  ResultEvent, ResultDb, ResultError, result_exists, ResultAction, SaveInput, is_matched, given,
  is_content_of, is_moved_version, moved_to, persist_integrity_state,
}

abbrev pub is_result_of : String → String → IntegrityResult → Bool
is_result_of task_id target_key row = str_eq row.task_id task_id && str_eq row.target_key target_key

-- A result of the same task for a version with the content of the reference.
abbrev pub may_be_moved : SaveInput → String → IntegrityResult → Bool
may_be_moved input node_id row =
    same_text row.expected_hash input.reference.expected_hash
    && row.expected_size_bytes == input.reference.expected_size_bytes
    && is_text row.node_id node_id
    && str_eq row.object_key input.reference.object_key
    && str_eq row.task_id input.task_id
    && is_some row.version_id
    && str_eq row.workspace_id input.reference.workspace_id

-- The node in its workspace still with the content of the reference.
abbrev pub is_current_node : TargetReference → String → BlobNode → Bool
is_current_node reference node_id node =
    str_eq node.id node_id
    && is_content_of reference node.blob
    && str_eq node.workspace_id reference.workspace_id

abbrev pub new_result : SaveInput → String → Option TargetReference → IntegrityResult
new_result input id (some reference) = record {
  id = id;
  task_id = input.task_id;
  target_key = reference.target_key;
  object_key = reference.object_key;
  node_id = reference.node_id;
  version_id = reference.version_id;
  expected_hash = reference.expected_hash;
  expected_size_bytes = reference.expected_size_bytes;
  workspace_id = reference.workspace_id;
  status = input.status;
  actual_hash = input.actual_hash;
  error_code = input.error_code;
  attempts = input.attempts;
  checked_at = input.checked_at;
}
new_result input id none = record {
  id = id;
  task_id = input.task_id;
  target_key = input.reference.target_key;
  object_key = input.reference.object_key;
  node_id = input.reference.node_id;
  version_id = input.reference.version_id;
  expected_hash = input.reference.expected_hash;
  expected_size_bytes = input.reference.expected_size_bytes;
  workspace_id = input.reference.workspace_id;
  status = failed;
  actual_hash = none;
  error_code = some "target-changed";
  attempts = input.attempts;
  checked_at = input.checked_at;
}

abbrev pub result_action : IntegrityResultStatus → String
result_action mismatch = "system.storage_integrity_mismatch_detected"
result_action _ = "system.storage_integrity_failure_detected"

abbrev pub audited : IntegrityResult → List ResultEvent → List ResultEvent
audited row events =
    if is_matched row.status
    then events
    else record {
      action = result_action row.status;
      result_id = row.id;
      task_id = row.task_id;
      error_code = row.error_code;
    }
      ∷ events

-- Rows of results with the same id, or for the same task and target, clash.
abbrev pub result_clash : IntegrityResult → IntegrityResult → Bool
result_clash row other = str_eq other.id row.id || is_result_of row.task_id row.target_key other

module _ (prisma : Client)
    (oldest_version : (BlobVersion → Bool) → List BlobVersion → Option BlobVersion) (now : ℕ)
    (result_id : String) (input : SaveInput) where
  -- The update that keeps the owner, which locks the task if the lease lives.
  unfoldable pub lock_task : ResultAction ℕ
  lock_task db =
      let (tasks, returned) =
        prisma.update_many_and_return IntegrityTask (is_held input.task_id input.lease_owner now)
          (λ row. record row { lease_owner = some input.lease_owner }) db.tasks in
      (resolved (length returned), record db { tasks = tasks })

  unfoldable pub find_result : (IntegrityResult → Bool) → ResultAction (Option IntegrityResult)
  find_result test db = (resolved (prisma.find_first IntegrityResult test db.results), db)

  unfoldable pub create_result : Option TargetReference → ResultAction (Option IntegrityResult)
  create_result reference db =
      let row = new_result input result_id reference in
      elim (prisma.create IntegrityResult (result_clash row) row db.results) [
        | none ↦ (thrown result_exists, db)
        | some results ↦
            (resolved (some row), record db { results = results; events = audited row db.events })
      ]

  unfoldable pub persist_and_create : ResultAction (Option IntegrityResult)
  unfolding persist_integrity_state create_result
  persist_and_create = do
    reference ← persist_integrity_state prisma oldest_version input
    create_result reference

  -- `resolveMovedNodeReference`
  unfoldable pub moved_reference : String → ResultAction (Option TargetReference)
  moved_reference node_id db =
      elim (prisma.find_first BlobNode (is_current_node input.reference node_id) db.nodes) [
        | some node ↦ (resolved none, db)
        | none ↦
            elim (oldest_version (is_moved_version input.reference node_id db.nodes) db.versions) [
              | none ↦ (resolved none, db)
              | some version ↦ (resolved (some (moved_to input.reference version.id)), db)
            ]
      ]

  unfoldable pub or_persist : Option IntegrityResult → ResultAction (Option IntegrityResult)
  unfolding persist_and_create
  or_persist none = persist_and_create
  or_persist (some row) = return (some row)

  unfoldable pub save_moved : Option TargetReference → ResultAction (Option IntegrityResult)
  unfolding find_result or_persist persist_and_create
  save_moved none = persist_and_create
  save_moved (some reference) = do
    row ← find_result (is_result_of input.task_id reference.target_key)
    or_persist row

  unfoldable pub save_possibly_moved :
      String → Option IntegrityResult → ResultAction (Option IntegrityResult)
  unfolding moved_reference save_moved persist_and_create
  save_possibly_moved node_id none = persist_and_create
  save_possibly_moved node_id (some row) = do
    reference ← moved_reference node_id
    save_moved reference

  unfoldable pub save_new :
      (version_id node_id : Option String) → ResultAction (Option IntegrityResult)
  unfolding find_result save_possibly_moved persist_and_create
  save_new none (some node_id) = do
    row ← find_result (may_be_moved input node_id)
    save_possibly_moved node_id row
  save_new _ _ = persist_and_create

  unfoldable pub save_unless_found : Option IntegrityResult → ResultAction (Option IntegrityResult)
  unfolding save_new
  save_unless_found (some row) = return (some row)
  save_unless_found none =
      save_new (given input.reference.version_id) (given input.reference.node_id)

  unfoldable pub save_locked : Bool → ResultAction (Option IntegrityResult)
  unfolding find_result save_unless_found
  save_locked false = return none
  save_locked true = do
    row ← find_result (is_result_of input.task_id input.reference.target_key)
    save_unless_found row

  unfoldable pub save_result : ResultAction (Option IntegrityResult)
  unfolding lock_task save_locked
  save_result =
      prisma.transaction ResultError (Option IntegrityResult) ResultDb
        (do count ← lock_task; save_locked (count == 1))
