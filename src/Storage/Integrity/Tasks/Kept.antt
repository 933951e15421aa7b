-- ===== src/Storage/Integrity/Tasks/Kept.antt =====
-- What any statements of storage-integrity-task.repository.ts keep of one task, and of all.
use icedr.Prelude.{
  ℕ, String, ◌≡◌, refl, sym, subst, true, false, none, some, List, [], ◌∷◌, ◌⊎◌, inl, inr,
  if◌then◌else◌, any, find?, str_eq, arith, Bool-cases, eq_iff, any_of_find?,
}
use icedr.Prisma.{Client, IsPrisma, by_in_memory, in_memory}
use icedr.Prisma.Ensures.{find?-update_where}
use icedr.Storage.Integrity.Tasks.{IntegrityTask, IntegrityDb, new_task}
use icedr.Storage.Integrity.Tasks.Operations.{has_task_id}
use icedr.Storage.Integrity.Tasks.History.{
  IntegrityStatement, creates, recovers, takes, renews, counts, saves, completes, requeues, step,
  run, reaches, patches, Effect, step-Effect,
}

abbrev pub written : IntegrityStatement → IntegrityTask → IntegrityTask
written e row = if reaches e row then patches e row else row

patches-id :
    (e : IntegrityStatement) (id : String) (row : IntegrityTask)
    → has_task_id id (patches e row) ≡ has_task_id id row
patches-id (creates active_key input task_id now) id row = refl
patches-id (recovers now) id row = refl
patches-id (takes task_id started_at input) id row = refl
patches-id (renews task_id lease_owner lease_expires_at) id row = refl
patches-id (counts task_id lease_owner target_count now progress) id row = refl
patches-id (saves task_id lease_owner progress cursor now) id row = refl
patches-id (completes task_id lease_owner input now event_id) id row = refl
patches-id (requeues task_id lease_owner) id row = refl

-- A new row comes under an id that no row has.
find_after_insertion :
    (id new_id : String) (row new : IntegrityTask) (rows : List IntegrityTask)
    → new.id ≡ new_id
    → any (has_task_id new_id) rows ≡ false
    → find? (has_task_id id) rows ≡ some row
    → find? (has_task_id id) (new ∷ rows) ≡ some row
find_after_insertion id new_id row new rows same free found =
    let there = any_of_find? (has_task_id id) rows found in
    elim (Bool-cases (str_eq new.id id)) [
      | inl t ↦
          let same_id : new_id ≡ id = ground (arith, eq_iff new.id id) in
          let taken : any (has_task_id id) rows ≡ true = there.1 in
          let none_there : any (has_task_id id) rows ≡ false =
            subst (λ i. any (has_task_id i) rows ≡ false) same_id free in
          cc
      | inr n ↦ rw n found
    ]

-- What every statement keeps of a task holds of it after any number of them.
module _ (P : IntegrityTask → Type 0)
    (keep : (e : IntegrityStatement) (row : IntegrityTask) → P row → P (written e row)) where
  Found : String → List IntegrityTask → Type 0
  Found id rows = (row : IntegrityTask) × (find? (has_task_id id) rows ≡ some row) × P row

  after-Found :
      (e : IntegrityStatement) (id : String) (rows after : List IntegrityTask)
      → Effect e rows after
      → Found id rows
      → Found id after
  unfolding Found
  after-Found e id rows after (inl same) (row, found, holds) = (row, rw same found, holds)
  after-Found e id rows after (inr (inl (can, p))) (row, found, holds) = (
    written e row,
    rw p (find?-update_where (has_task_id id) (reaches e) (patches e) (patches-id e id) rows found),
    keep e row holds,
  )
  after-Found e id rows after (inr (inr (active_key, input, new_id, now, free, p)))
        (row, found, holds) =
      (
        row,
        rw p (
            find_after_insertion id new_id row (new_task active_key input new_id now) rows refl free
              found),
        holds,
      )

  pub run_keeps :
      (es : List IntegrityStatement) (id : String) (db : IntegrityDb) (row : IntegrityTask)
      → find? (has_task_id id) db.tasks ≡ some row
      → P row
      → (r : IntegrityTask) × (find? (has_task_id id) (run in_memory es db).tasks ≡ some r) × P r
  unfolding run Found
  run_keeps [] id db row found holds = (row, found, holds)
  run_keeps (e ∷ es) id db row found holds =
      let (r, q, h) =
        after-Found e id db.tasks (step in_memory e db).tasks (step-Effect e db)
          (row, found, holds) in
      run_keeps es id (step in_memory e db) r q h

-- A task that has ended, with the active key gone that a new task could share.
abbrev pub HasEnded : IntegrityTask → Type 0
HasEnded row = (row.active_key ≡ none) × ((row.status ≡ "completed") ⊎ (row.status ≡ "failed"))

ended_status :
    (row : IntegrityTask) (status : String)
    → str_eq "completed" status ≡ false
    → str_eq "failed" status ≡ false
    → HasEnded row
    → str_eq row.status status ≡ false
ended_status row status p q (a, inl s) = rw s p
ended_status row status p q (a, inr s) = rw s q

ended_unwritten :
    (e : IntegrityStatement) (row : IntegrityTask) → HasEnded row → reaches e row ≡ false
ended_unwritten (creates active_key input id now) row h = rw h.0 refl
ended_unwritten (recovers now) row h = ground (arith, ended_status row "running" refl refl h)
ended_unwritten (takes id started_at input) row h =
    ground (arith, ended_status row "queued" refl refl h)
ended_unwritten (renews id lease_owner lease_expires_at) row h =
    ground (arith, ended_status row "running" refl refl h)
ended_unwritten (counts id lease_owner target_count now progress) row h =
    ground (arith, ended_status row "running" refl refl h)
ended_unwritten (saves id lease_owner progress cursor now) row h =
    ground (arith, ended_status row "running" refl refl h)
ended_unwritten (completes id lease_owner input now event_id) row h =
    ground (arith, ended_status row "running" refl refl h)
ended_unwritten (requeues id lease_owner) row h =
    ground (arith, ended_status row "running" refl refl h)

ended-written :
    (task : IntegrityTask)
    → HasEnded task
    → (e : IntegrityStatement) (row : IntegrityTask) → row ≡ task
    → written e row ≡ task
ended-written task h e row p = rw (ended_unwritten e row (subst HasEnded (sym p) h)) p

-- Whatever statements are sent afterwards, by whom and in any order, a task that has completed or
-- failed and has no active key stays in the table as it is.
pub run-HasEnded :
    (c : Client)
    → IsPrisma c
    → (es : List IntegrityStatement) (db : IntegrityDb) (id : String) (row : IntegrityTask)
    → find? (has_task_id id) db.tasks ≡ some row
    → HasEnded row
    → find? (has_task_id id) (run c es db).tasks ≡ some row
run-HasEnded c h es db id row found ended =
    by_in_memory (λ k. find? (has_task_id id) (run k es db).tasks ≡ some row) h
      (let (r, q, p) = run_keeps (λ t. t ≡ row) (ended-written row ended) es id db row found refl in
        subst (λ t. find? (has_task_id id) (run in_memory es db).tasks ≡ some t) p q)

counted-written :
    (n : ℕ) (e : IntegrityStatement) (row : IntegrityTask)
    → row.target_count ≡ some n
    → (written e row).target_count ≡ some n
counted-written n (creates active_key input id now) row h = ground arith
counted-written n (recovers now) row h = ground arith
counted-written n (takes id started_at input) row h = ground arith
counted-written n (renews id lease_owner lease_expires_at) row h = ground arith
counted-written n (counts id lease_owner target_count now progress) row h = ground arith
counted-written n (saves id lease_owner progress cursor now) row h = ground arith
counted-written n (completes id lease_owner input now event_id) row h = ground arith
counted-written n (requeues id lease_owner) row h = ground arith

-- The number of targets of a task is written once: whatever statements follow, of whichever owners,
-- the task is in the table and has the number that it had.
pub run-target_count :
    (c : Client)
    → IsPrisma c
    → (es : List IntegrityStatement) (db : IntegrityDb) (id : String) (row : IntegrityTask) (n : ℕ)
    → find? (has_task_id id) db.tasks ≡ some row
    → row.target_count ≡ some n
    → (r : IntegrityTask) × (find? (has_task_id id) (run c es db).tasks ≡ some r)
      × (r.target_count ≡ some n)
run-target_count c h es db id row n found counted =
    by_in_memory
      (λ k.
        (r : IntegrityTask) × (find? (has_task_id id) (run k es db).tasks ≡ some r)
        × (r.target_count ≡ some n))
      h (run_keeps (λ t. t.target_count ≡ some n) (counted-written n) es id db row found counted)
