-- ===== src/Storage/Integrity/Tasks/Completed.antt =====
-- `completeTask` of storage-integrity-task.repository.ts: the task and its audit event together.
use icedr.Prelude.{
  ℕ, String, ◌≡◌, refl, Bool, true, false, Option, none, some, List, [], ◌∷◌, inl, inr, any, find?,
  filter, map, length, leb, ◌==◌, str_eq, arith, Bool-cases, Option-cases, any_of_find?, ◌≤◌,
  leb→le, ap, subst, sym,
}
use icedr.Prisma.{
  Client, IsPrisma, by_in_memory, in_memory, update_where, Outcome, resolved, thrown, then_run,
  roll_back,
}
use icedr.Prisma.Ensures.{find?-update_where}
use icedr.Storage.Integrity.Tasks.{
  IntegrityTask, IntegrityDb, IntegrityError, CompletionInput, is_held, task_completed,
  completion_event,
}
use icedr.Storage.Integrity.Tasks.Operations.{has_task_id, complete_task, after_completion}
use icedr.Storage.Integrity.Tasks.Fenced.{update-none}

-- An id that at most one row has, as a primary key.
abbrev pub is_unique_id : String → List IntegrityTask → Bool
is_unique_id id rows = leb (length (filter (has_task_id id) rows)) 1

abbrev pub has_event : String → IntegrityDb → Bool
has_event event_id db = any (λ row. str_eq row.id event_id) db.events

-- Completed under its lease with an event, refused without it, or nothing done as the event's id is
-- taken.
abbrev pub CompletionEnds :
    String
    → String
    → CompletionInput
    → ℕ
    → String
    → IntegrityDb
    → Outcome IntegrityError (Option IntegrityTask) × IntegrityDb
    → Type 0
CompletionEnds id o input now event_id db (resolved (some row), after) =
    (task : IntegrityTask) × (find? (is_held id o now) db.tasks ≡ some task)
    × (row ≡ task_completed input now task)
    × (find? (has_task_id id) after.tasks ≡ some row)
    × (after.events ≡ completion_event input id now event_id ∷ db.events)
CompletionEnds id o input now event_id db (resolved none, after) =
    (any (is_held id o now) db.tasks ≡ false) × (after ≡ db)
CompletionEnds id o input now event_id db (thrown e, after) =
    (any (is_held id o now) db.tasks ≡ true) × (has_event event_id db ≡ true) × (after ≡ db)

any_of_none :
    (p : IntegrityTask → Bool) (rows : List IntegrityTask)
    → find? p rows ≡ none
    → any p rows ≡ false
any_of_none p [] h = refl
any_of_none p (x ∷ xs) h = ground (arith, any_of_none p xs)

module _ (id o : String) (now : ℕ) where
  held_le_ids :
      (rows : List IntegrityTask)
      → length (filter (is_held id o now) rows) ≤ length (filter (has_task_id id) rows)
  held_le_ids [] = ground arith
  held_le_ids (x ∷ xs) = ground (arith, held_le_ids xs)

  held_positive :
      (rows : List IntegrityTask)
      → any (is_held id o now) rows ≡ true
      → 1 ≤ length (filter (is_held id o now) rows)
  held_positive [] h = cc
  held_positive (x ∷ xs) h = ground (arith, held_positive xs)

  length_of_filter :
      (patch : IntegrityTask → IntegrityTask) (rows : List IntegrityTask)
      → length (map patch (filter (is_held id o now) rows))
        ≡ length (filter (is_held id o now) rows)
  length_of_filter patch [] = refl
  length_of_filter patch (x ∷ xs) = ground (arith, length_of_filter patch xs)

  pub one_held :
      (patch : IntegrityTask → IntegrityTask) (rows : List IntegrityTask)
      → any (is_held id o now) rows ≡ true
      → is_unique_id id rows ≡ true
      → (length (map patch (filter (is_held id o now) rows)) == 1) ≡ true
  one_held patch rows h u = ground (
    arith,
    length_of_filter patch rows,
    held_positive rows h,
    held_le_ids rows,
    leb→le (length (filter (has_task_id id) rows)) 1 u,
  )

  some_id :
      (rows : List IntegrityTask) (task : IntegrityTask)
      → find? (is_held id o now) rows ≡ some task
      → 1 ≤ length (filter (has_task_id id) rows)
  some_id rows task p =
      ground
        (arith, held_positive rows (any_of_find? (is_held id o now) rows p).1, held_le_ids rows)

  -- The row that is held is the row with the id.
  held_is_first :
      (rows : List IntegrityTask) (task : IntegrityTask)
      → is_unique_id id rows ≡ true
      → find? (is_held id o now) rows ≡ some task
      → find? (has_task_id id) rows ≡ some task
  held_is_first [] task u p = cc
  held_is_first (x ∷ xs) task u p = elim (Bool-cases (is_held id o now x)) [
    | inl t ↦ let has_id : has_task_id id x ≡ true = ground arith in rw has_id (rw t at p)
    | inr n ↦
        let rest : find? (is_held id o now) xs ≡ some task = rw n at p in
        elim (Bool-cases (has_task_id id x)) [
          | inl k ↦ ground (arith, some_id xs task rest)
          | inr k ↦ rw k (held_is_first xs task (rw k at u) rest)
        ]
  ]

module _ (id o : String) (input : CompletionInput) (now : ℕ) (event_id : String)
    (db : IntegrityDb) where
  held_completes :
      (task : IntegrityTask)
      → is_unique_id id db.tasks ≡ true
      → find? (is_held id o now) db.tasks ≡ some task
      → CompletionEnds id o input now event_id db
          (complete_task in_memory id o input now event_id db)
  unfolding complete_task
  held_completes task u p =
      let held : any (is_held id o now) db.tasks ≡ true =
        (any_of_find? (is_held id o now) db.tasks p).1 in
      let this : is_held id o now task ≡ true = (any_of_find? (is_held id o now) db.tasks p).0 in
      let one = one_held id o now (task_completed input now) db.tasks held u in
      let first = held_is_first id o now db.tasks task u p in
      let found =
        find?-update_where {Row = IntegrityTask} (has_task_id id) (is_held id o now)
          (task_completed input now) (λ row. refl) db.tasks first in
      let kept : find? (has_task_id id)
            (update_where (is_held id o now) (task_completed input now) db.tasks)
          ≡ some (task_completed input now task) =
        rw this at found in
      elim (Bool-cases (has_event event_id db)) [
        | inl e ↦ rw (complete_task, one, kept, e) (held, e, refl)
        | inr e ↦ rw (complete_task, one, kept, e) (task, p, refl, kept, refl)
      ]

  unheld_refuses :
      any (is_held id o now) db.tasks ≡ false
      → CompletionEnds id o input now event_id db
          (complete_task in_memory id o input now event_id db)
  unfolding complete_task after_completion
  unheld_refuses none_held =
      subst (CompletionEnds id o input now event_id db)
        (sym (
          ap
            (λ p.
              roll_back db (
                then_run p
                  (λ count. after_completion in_memory input id now event_id (count == 1))))
            (update-none (is_held id o now) (task_completed input now) db none_held)))
        (none_held, refl)

-- A completion is done as a whole. When at most one row has the id of the task, it ends in one of
-- three ways: with the task that the owner held under a lease that lives, completed in the table, and
-- one audit event more; with no task, nothing written, and no such task before; or with the exception
-- that the id of the event is taken, nothing written either. This is for any client.
pub complete_task-Ends :
    (c : Client)
    → IsPrisma c
    → (id o : String) (input : CompletionInput) (now : ℕ) (event_id : String) (db : IntegrityDb)
    → is_unique_id id db.tasks ≡ true
    → CompletionEnds id o input now event_id db (complete_task c id o input now event_id db)
complete_task-Ends c h id o input now event_id db u =
    by_in_memory
      (λ k. CompletionEnds id o input now event_id db (complete_task k id o input now event_id db))
      h
      (elim (Option-cases (find? (is_held id o now) db.tasks)) [
        | inl p ↦
            unheld_refuses id o input now event_id db (any_of_none (is_held id o now) db.tasks p)
        | inr (task, p) ↦ held_completes id o input now event_id db task u p
      ])
