-- ===== src/Storage/Integrity/Targets/Fenced.antt =====
-- What `saveResult` of storage-integrity-task.repository.ts answers without a lease, and again.
use icedr.Prelude.{
  if◌then◌else◌, ◌≡◌, refl, Bool, true, false, Option, some, none, List, [], ◌∷◌, any, find?,
  Bool-cases, inl, inr, arith, is_text_iff, sym, ap, ℕ, String,
}
use icedr.Prisma.{Client, IsPrisma, by_in_memory, in_memory, update_where, resolved}
use icedr.Prisma.Ensures.{update_where_none, filter_none}
use icedr.Storage.Integrity.Tasks.{IntegrityTask, is_held}
use icedr.Storage.Integrity.Tasks.Completed.{is_unique_id, one_held}
use icedr.Storage.Integrity.Targets.{BlobVersion, IntegrityResult, ResultDb, SaveInput}
use icedr.Storage.Integrity.Targets.Save.{
  is_result_of, find_result, lock_task, save_unless_found, save_locked, save_result,
}

module _ (now : ℕ) (input : SaveInput) where
  abbrev held : IntegrityTask → Bool
  held = is_held input.task_id input.lease_owner now

  abbrev owned : IntegrityTask → IntegrityTask
  owned row = record row { lease_owner = some input.lease_owner }

  owned_same : (row : IntegrityTask) → held row ≡ true → owned row ≡ row
  owned_same row h =
      let owner : row.lease_owner ≡ some input.lease_owner =
        (is_text_iff row.lease_owner input.lease_owner).0 (ground arith) in
      λ i. record row { lease_owner = sym owner i }

  lock_same : (rows : List IntegrityTask) → update_where held owned rows ≡ rows
  lock_same [] = refl
  lock_same (x ∷ xs) = elim (Bool-cases (held x)) [
    | inl h ↦ rw (h, lock_same xs) (ap (λ y. y ∷ xs) (owned_same x h))
    | inr h ↦ rw (h, lock_same xs) refl
  ]

module _ (oldest : (BlobVersion → Bool) → List BlobVersion → Option BlobVersion) (now : ℕ)
    (result_id : String) (input : SaveInput) (db : ResultDb) where
  -- With one row under the lease, and a result of the task for the target.
  answers_found :
      (row : IntegrityResult)
      → any (is_held input.task_id input.lease_owner now) db.tasks ≡ true
      → is_unique_id input.task_id db.tasks ≡ true
      → find? (is_result_of input.task_id input.reference.target_key) db.results ≡ some row
      → save_result in_memory oldest now result_id input db ≡ (resolved (some row), db)
  unfolding save_result lock_task save_locked find_result save_unless_found
  answers_found row h u f =
      let one = one_held input.task_id input.lease_owner now (owned now input) db.tasks h u in
      let same = lock_same now input db.tasks in rw (save_result, one, f, same) refl

  answers_none :
      any (is_held input.task_id input.lease_owner now) db.tasks ≡ false
      → save_result in_memory oldest now result_id input db ≡ (resolved none, db)
  unfolding save_result lock_task save_locked
  answers_none h =
      let same = update_where_none (held now input) (owned now input) db.tasks h in
      let nothing = filter_none (held now input) (owned now input) db.tasks h in
      rw (save_result, nothing, same) refl

-- A save for a target that already has a result of the task changes nothing: under a lease that
-- lives it answers the first such result, whatever it was to save, and without one it answers none.
-- At most one row of tasks has the id of the task. This is for any client and any query for the
-- oldest version.
pub save_result_again :
    (c : Client)
    → IsPrisma c
    → (oldest : (BlobVersion → Bool) → List BlobVersion → Option BlobVersion) (now : ℕ)
      (result_id : String) (input : SaveInput) (db : ResultDb) (row : IntegrityResult)
    → is_unique_id input.task_id db.tasks ≡ true
    → find? (is_result_of input.task_id input.reference.target_key) db.results ≡ some row
    → save_result c oldest now result_id input db ≡ (
      resolved
          (if any (is_held input.task_id input.lease_owner now) db.tasks then some row else none),
      db,
    )
save_result_again c h oldest now result_id input db row u f =
    elim (Bool-cases (any (is_held input.task_id input.lease_owner now) db.tasks)) [
      | inl t ↦ rw t (
          by_in_memory
            (λ k. save_result k oldest now result_id input db ≡ (resolved (some row), db)) h
            (answers_found oldest now result_id input db row t u f))
      | inr t ↦ rw t (
          by_in_memory (λ k. save_result k oldest now result_id input db ≡ (resolved none, db)) h
            (answers_none oldest now result_id input db t))
    ]
