-- ===== src/Storage/Integrity/Tasks/Operations.antt =====
-- The operations of storage-integrity-task.repository.ts on the rows of tasks, over any client but
-- SQLite's. A task that is returned is its row.
use icedr.Prelude.{
  ℕ, String, Bool, true, false, Option, none, some, List, if◌then◌else◌, ◌==◌, length, str_eq, ◌&&◌,
  is_none, is_text,
}
use icedr.Prisma.{Client, changed, not_found, clashed, resolved, thrown, ◌>>=◌, ◌>>◌, return}
use icedr.Storage.Integrity.Tasks.{
  IntegrityProgress, IntegrityTask, IntegrityEvent, IntegrityDb, IntegrityError, event_exists,
  IntegrityAction, ClaimInput, CompletionInput, NewTaskInput, is_queued, lease_has_expired,
  is_owned, is_held, requeued, task_claimed, lease_clash, counted_targets, task_completed,
  completion_event, new_task,
}

abbrev pub has_task_id : String → IntegrityTask → Bool
has_task_id id row = str_eq row.id id

abbrev pub can_be_claimed : String → IntegrityTask → Bool
can_be_claimed id row = str_eq row.id id && is_queued row

abbrev pub is_uncounted : String → String → ℕ → IntegrityTask → Bool
is_uncounted id lease_owner now row = is_held id lease_owner now row && is_none row.target_count

abbrev pub has_active_key : String → IntegrityTask → Bool
has_active_key active_key row = is_text row.active_key active_key

module _ (prisma : Client) where
  unfoldable pub update_tasks :
      (IntegrityTask → Bool) → (IntegrityTask → IntegrityTask) → IntegrityAction ℕ
  update_tasks test patch db =
      let (rows, returned) = prisma.update_many_and_return IntegrityTask test patch db.tasks in
      (resolved (length returned), record db { tasks = rows })

  unfoldable pub find_task : (IntegrityTask → Bool) → IntegrityAction (Option IntegrityTask)
  find_task test db = (resolved (prisma.find_first IntegrityTask test db.tasks), db)

  -- Whether the task is new, with the task. `active_key` is the hash of what makes it the same.
  unfoldable pub create_or_reuse_task :
      String → NewTaskInput → String → ℕ → IntegrityAction (Bool × Option IntegrityTask)
  create_or_reuse_task active_key input id now db =
      let tasks =
        prisma.upsert IntegrityTask (has_active_key active_key) (new_task active_key input id now)
          (λ row. record row { active_key = some active_key }) db.tasks in
      let found = prisma.find_first IntegrityTask (has_active_key active_key) tasks in
      (
        resolved (elim found [ none ↦ false | some row ↦ str_eq row.id id ], found),
        record db { tasks = tasks },
      )

  unfoldable pub recover_expired_lease : ℕ → IntegrityAction (Unit {0})
  unfolding update_tasks
  recover_expired_lease now = do count ← update_tasks (lease_has_expired now) requeued; return tt

  -- The `update` of a claim. A conflict is no task.
  unfoldable pub take_task : String → Option ℕ → ClaimInput → IntegrityAction (Option IntegrityTask)
  take_task id started_at input db =
      elim (prisma.update IntegrityTask (can_be_claimed id) lease_clash
        (task_claimed input started_at) db.tasks) [
          | changed row rows ↦ (resolved (some row), record db { tasks = rows })
          | not_found ↦ (resolved none, db)
          | clashed ↦ (resolved none, db)
        ]

  unfoldable pub take_candidate :
      ClaimInput
      → (IntegrityDb → IntegrityDb)
      → Option IntegrityTask
      → IntegrityAction (Option IntegrityTask)
  unfolding take_task
  take_candidate input between none db = (resolved none, db)
  take_candidate input between (some candidate) db =
      take_task candidate.id candidate.started_at input (between db)

  -- `others` writes between the recovery and the read of a candidate, `between` after that.
  unfoldable pub claim_next_task :
      (List IntegrityTask → Option IntegrityTask)
      → ClaimInput
      → (others between : IntegrityDb → IntegrityDb) → IntegrityAction (Option IntegrityTask)
  unfolding recover_expired_lease take_candidate
  claim_next_task oldest_queued input others between = do
    recover_expired_lease input.now
    (λ db. take_candidate input between (oldest_queued (others db).tasks) (others db))

  unfoldable pub renew_lease : String → String → ℕ → IntegrityAction Bool
  unfolding update_tasks
  renew_lease id lease_owner lease_expires_at = do
    count ←
        update_tasks (is_owned id lease_owner)
          (λ row. record row { lease_expires_at = some lease_expires_at })
    return (count == 1)

  -- The `updateMany` of `initializeTargetCount`, with the progress that was read.
  unfoldable pub count_targets :
      String → String → ℕ → ℕ → IntegrityProgress → IntegrityAction (Option ℕ)
  unfolding update_tasks
  count_targets id lease_owner target_count now progress = do
    count ← update_tasks (is_uncounted id lease_owner now) (counted_targets target_count progress)
    return (if count == 1 then some target_count else none)

  unfoldable pub initialize_found :
      String
      → String
      → ℕ
      → ℕ
      → (IntegrityDb → IntegrityDb)
      → Option IntegrityTask
      → IntegrityAction (Option ℕ)
  unfolding count_targets
  initialize_found id lease_owner target_count now between none db = (resolved none, db)
  initialize_found id lease_owner target_count now between (some task) db =
      count_targets id lease_owner target_count now task.progress (between db)

  unfoldable pub initialize_target_count :
      String → String → ℕ → ℕ → (IntegrityDb → IntegrityDb) → IntegrityAction (Option ℕ)
  unfolding find_task initialize_found
  initialize_target_count id lease_owner target_count now between = do
    task ← find_task (is_uncounted id lease_owner now)
    initialize_found id lease_owner target_count now between task

  unfoldable pub save_progress :
      String → String → IntegrityProgress → String × String → ℕ → IntegrityAction Bool
  unfolding update_tasks
  save_progress task_id lease_owner progress cursor now = do
    count ←
        update_tasks (is_held task_id lease_owner now)
          (λ row. record row { cursor = some cursor; progress = progress })
    return (count == 1)

  unfoldable pub record_storage_integrity_audit : IntegrityEvent → IntegrityAction (Unit {0})
  record_storage_integrity_audit event db =
      elim (prisma.create IntegrityEvent (λ row. str_eq row.id event.id) event db.events) [
        | none ↦ (thrown event_exists, db)
        | some events ↦ (resolved tt, record db { events = events })
      ]

  unfoldable pub report_completion :
      CompletionInput
      → String
      → ℕ
      → String
      → Option IntegrityTask
      → IntegrityAction (Option IntegrityTask)
  unfolding record_storage_integrity_audit
  report_completion input task_id now event_id none = return none
  report_completion input task_id now event_id (some row) = do
    record_storage_integrity_audit (completion_event input task_id now event_id)
    return (some row)

  unfoldable pub after_completion :
      CompletionInput → String → ℕ → String → Bool → IntegrityAction (Option IntegrityTask)
  unfolding find_task report_completion
  after_completion input task_id now event_id false = return none
  after_completion input task_id now event_id true = do
    row ← find_task (has_task_id task_id)
    report_completion input task_id now event_id row

  unfoldable pub complete_task :
      String → String → CompletionInput → ℕ → String → IntegrityAction (Option IntegrityTask)
  unfolding update_tasks after_completion
  complete_task task_id lease_owner input now event_id =
      prisma.transaction IntegrityError (Option IntegrityTask) IntegrityDb (do
        count ← update_tasks (is_held task_id lease_owner now) (task_completed input now)
        after_completion input task_id now event_id (count == 1))

  unfoldable pub requeue_owned_task : String → String → IntegrityAction (Unit {0})
  unfolding update_tasks
  requeue_owned_task task_id lease_owner = do
    count ← update_tasks (is_owned task_id lease_owner) requeued
    return tt
