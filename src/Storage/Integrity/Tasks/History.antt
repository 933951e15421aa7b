-- ===== src/Storage/Integrity/Tasks/History.antt =====
-- What the statements of storage-integrity-task.repository.ts do to the table of tasks in any order,
-- whoever sends them.
use icedr.Prelude.{
  ℕ, String, ◌≡◌, refl, Bool, true, false, Option, some, List, [], ◌∷◌, ◌⊎◌, inl, inr,
  if◌then◌else◌, any, find?, not, ◌&&◌, same_text, str_eq, arith, Bool-cases, length, map, filter,
  ◌==◌, eq_iff, Option-cases, any_of_find?,
}
use icedr.Prisma.{Client, in_memory, update_where}
use icedr.Storage.Integrity.Tasks.{
  IntegrityProgress, IntegrityTask, IntegrityDb, ClaimInput, CompletionInput, NewTaskInput,
  lease_has_expired, is_owned, is_held, requeued, task_claimed, lease_clash, counted_targets,
  task_completed, new_task,
}
use icedr.Storage.Integrity.Tasks.Operations.{
  has_task_id, can_be_claimed, is_uncounted, has_active_key, create_or_reuse_task,
  recover_expired_lease, take_task, renew_lease, count_targets, save_progress, complete_task,
  requeue_owned_task,
}

-- One statement, by the operation that sends it. What an operation reads before it writes may be old,
-- so the values that it read are any.
pub data IntegrityStatement : Type 0 where
  creates : String → NewTaskInput → String → ℕ → IntegrityStatement
  recovers : ℕ → IntegrityStatement
  takes : String → Option ℕ → ClaimInput → IntegrityStatement
  renews : String → String → ℕ → IntegrityStatement
  counts : String → String → ℕ → ℕ → IntegrityProgress → IntegrityStatement
  saves : String → String → IntegrityProgress → String × String → ℕ → IntegrityStatement
  completes : String → String → CompletionInput → ℕ → String → IntegrityStatement
  requeues : String → String → IntegrityStatement

-- The id of a row is its primary key: a row is not inserted under an id that is taken.
unfoldable pub step : Client → IntegrityStatement → IntegrityDb → IntegrityDb
step c (creates active_key input id now) db =
    if any (has_task_id id) db.tasks
    then db
    else (create_or_reuse_task c active_key input id now db).1
step c (recovers now) db = (recover_expired_lease c now db).1
step c (takes id started_at input) db = (take_task c id started_at input db).1
step c (renews id lease_owner lease_expires_at) db =
    (renew_lease c id lease_owner lease_expires_at db).1
step c (counts id lease_owner target_count now progress) db =
    (count_targets c id lease_owner target_count now progress db).1
step c (saves id lease_owner progress cursor now) db =
    (save_progress c id lease_owner progress cursor now db).1
step c (completes id lease_owner input now event_id) db =
    (complete_task c id lease_owner input now event_id db).1
step c (requeues id lease_owner) db = (requeue_owned_task c id lease_owner db).1

unfoldable pub run : Client → List IntegrityStatement → IntegrityDb → IntegrityDb
run c [] db = db
run c (e ∷ es) db = run c es (step c e db)

-- The rows that a statement writes, and what it writes.
abbrev pub reaches : IntegrityStatement → IntegrityTask → Bool
reaches (creates active_key input id now) = has_active_key active_key
reaches (recovers now) = lease_has_expired now
reaches (takes id started_at input) = can_be_claimed id
reaches (renews id lease_owner lease_expires_at) = is_owned id lease_owner
reaches (counts id lease_owner target_count now progress) = is_uncounted id lease_owner now
reaches (saves id lease_owner progress cursor now) = is_held id lease_owner now
reaches (completes id lease_owner input now event_id) = is_held id lease_owner now
reaches (requeues id lease_owner) = is_owned id lease_owner

abbrev pub patches : IntegrityStatement → IntegrityTask → IntegrityTask
patches (creates active_key input id now) row = record row { active_key = some active_key }
patches (recovers now) row = requeued row
patches (takes id started_at input) row = task_claimed input started_at row
patches (renews id lease_owner lease_expires_at) row = record row {
  lease_expires_at = some lease_expires_at;
}
patches (counts id lease_owner target_count now progress) row =
    counted_targets target_count progress row
patches (saves id lease_owner progress cursor now) row = record row {
  cursor = some cursor;
  progress = progress;
}
patches (completes id lease_owner input now event_id) row = task_completed input now row
patches (requeues id lease_owner) row = requeued row

-- A row other than one, with the lease key.
abbrev pub keeps_lease : String → IntegrityTask → Bool
keeps_lease id other =
    not (str_eq id other.id) && same_text (some "storage-integrity") other.lease_key

abbrev pub CanWrite : IntegrityStatement → List IntegrityTask → Type 0
CanWrite (takes id started_at input) rows = any (keeps_lease id) rows ≡ false
CanWrite _ rows = Unit

-- The rows after a statement: as they were, written in place, or with a new one.
abbrev pub Effect : IntegrityStatement → List IntegrityTask → List IntegrityTask → Type 0
Effect e rows after =
    (after ≡ rows)
    ⊎ (CanWrite e rows × (after ≡ update_where (reaches e) (patches e) rows))
    ⊎ ((active_key : String) × (input : NewTaskInput) × (id : String) × (now : ℕ) × (any
            (has_task_id id) rows
          ≡ false)
        × (after ≡ new_task active_key input id now ∷ rows))

create-Effect :
    (active_key : String) (input : NewTaskInput) (id : String) (now : ℕ) (db : IntegrityDb)
    → Effect
        (creates active_key input id now)
        db.tasks
        (step in_memory (creates active_key input id now) db).tasks
unfolding step create_or_reuse_task
create-Effect active_key input id now db = elim (Bool-cases (any (has_task_id id) db.tasks)) [
  | inl e ↦ inl (rw e refl)
  | inr e ↦ elim (Bool-cases (any (has_active_key active_key) db.tasks)) [
    | inl k ↦ inr (inl (tt, rw (e, k) refl))
    | inr k ↦ inr (inr (active_key, input, id, now, e, rw (e, k) refl))
  ]
]

pub clash-eq-keeps_lease :
    (id : String) (started_at : Option ℕ) (input : ClaimInput) (row : IntegrityTask)
    (rows : List IntegrityTask)
    → str_eq row.id id ≡ true
    → any (lease_clash (task_claimed input started_at row)) rows ≡ any (keeps_lease id) rows
clash-eq-keeps_lease id started_at input row [] h = refl
clash-eq-keeps_lease id started_at input row (x ∷ xs) h =
    ground (arith, clash-eq-keeps_lease id started_at input row xs, eq_iff row.id id)

taken_row :
    (id : String) (started_at : Option ℕ) (input : ClaimInput) (db : IntegrityDb)
    → (row : IntegrityTask) → find? (can_be_claimed id) db.tasks ≡ some row
    → Effect
        (takes id started_at input)
        db.tasks
        (step in_memory (takes id started_at input) db).tasks
unfolding step take_task
taken_row id started_at input db row p =
    let same_id : str_eq row.id id ≡ true =
      ground (arith, any_of_find? (can_be_claimed id) db.tasks p) in
    let clash_eq = clash-eq-keeps_lease id started_at input row db.tasks same_id in
    elim (Bool-cases (any (keeps_lease id) db.tasks)) [
      | inl k ↦ inl (rw (step, take_task, p, clash_eq, k) refl)
      | inr k ↦ inr (inl (k, rw (step, take_task, p, clash_eq, k) refl))
    ]

take-Effect :
    (id : String) (started_at : Option ℕ) (input : ClaimInput) (db : IntegrityDb)
    → Effect
        (takes id started_at input)
        db.tasks
        (step in_memory (takes id started_at input) db).tasks
unfolding step take_task
take-Effect id started_at input db = elim (Option-cases (find? (can_be_claimed id) db.tasks)) [
  | inl p ↦ inl (rw (step, take_task, p) refl)
  | inr (row, p) ↦ taken_row id started_at input db row p
]

complete-Effect :
    (id lease_owner : String) (input : CompletionInput) (now : ℕ) (event_id : String)
    (db : IntegrityDb)
    → Effect
        (completes id lease_owner input now event_id)
        db.tasks
        (step in_memory (completes id lease_owner input now event_id) db).tasks
unfolding step complete_task
complete-Effect id lease_owner input now event_id db =
    let after = update_where (is_held id lease_owner now) (task_completed input now) db.tasks in
    let returned = map (task_completed input now) (filter (is_held id lease_owner now) db.tasks) in
    elim (Bool-cases (length returned == 1)) [
      | inr n ↦ inr (inl (tt, rw (step, complete_task, n) refl))
      | inl k ↦ elim (Option-cases (find? (has_task_id id) after)) [
        | inl p ↦ inr (inl (tt, rw (step, complete_task, k, p) refl))
        | inr (row, p) ↦ elim (Bool-cases (any (λ r. str_eq r.id event_id) db.events)) [
          | inl q ↦ inl (rw (step, complete_task, k, p, q) refl)
          | inr q ↦ inr (inl (tt, rw (step, complete_task, k, p, q) refl))
        ]
      ]
    ]

pub step-Effect :
    (e : IntegrityStatement) (db : IntegrityDb) → Effect e db.tasks (step in_memory e db).tasks
unfolding step recover_expired_lease renew_lease count_targets save_progress requeue_owned_task
step-Effect (creates active_key input id now) db = create-Effect active_key input id now db
step-Effect (recovers now) db = inr (inl (tt, refl))
step-Effect (takes id started_at input) db = take-Effect id started_at input db
step-Effect (renews id lease_owner lease_expires_at) db = inr (inl (tt, refl))
step-Effect (counts id lease_owner target_count now progress) db = inr (inl (tt, refl))
step-Effect (saves id lease_owner progress cursor now) db = inr (inl (tt, refl))
step-Effect (completes id lease_owner input now event_id) db =
    complete-Effect id lease_owner input now event_id db
step-Effect (requeues id lease_owner) db = inr (inl (tt, refl))
