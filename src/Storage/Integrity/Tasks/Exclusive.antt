-- ===== src/Storage/Integrity/Tasks/Exclusive.antt =====
-- At most one integrity task runs: the lease key of storage-integrity-task.repository.ts.
use icedr.Prelude.{
  ℕ, String, ◌≡◌, refl, Bool, true, false, Option, some, List, [], ◌∷◌, inl, inr, if◌then◌else◌,
  any, all, not, ◌&&◌, str_eq, is_none, is_some, is_text, arith, Bool-cases, eq_iff, is_text_iff,
}
use icedr.Prisma.{Client, IsPrisma, by_in_memory, in_memory, update_where}
use icedr.Storage.Integrity.Tasks.{
  IntegrityTask, IntegrityDb, ClaimInput, CompletionStatus, completed, failed, is_running,
  completion_status_text,
}
use icedr.Storage.Integrity.Tasks.Operations.{can_be_claimed}
use icedr.Storage.Integrity.Tasks.History.{
  IntegrityStatement, creates, recovers, takes, renews, counts, saves, completes, requeues, step,
  run, reaches, patches, Effect, step-Effect, CanWrite, keeps_lease,
}
use icedr.Storage.Integrity.Tasks.Kept.{written}

-- A running task is the one with an id, and has the lease key, an owner and an expiry. Any other has
-- no lease key.
abbrev pub is_sole : String → IntegrityTask → Bool
is_sole id row =
    if is_running row
    then str_eq row.id id
      && is_text row.lease_key "storage-integrity"
      && is_some row.lease_owner
      && is_some row.lease_expires_at
    else is_none row.lease_key

-- All running tasks are one task, which has the lease.
abbrev pub IsExclusive : IntegrityDb → Type 0
IsExclusive db = (id : String) × (all (is_sole id) db.tasks ≡ true)

sole-requeued :
    (id : String) (e : IntegrityStatement) (row : IntegrityTask)
    → is_sole id row ≡ true
    → is_none (patches e row).lease_key ≡ true
    → is_running (patches e row) ≡ false
    → is_sole id (written e row) ≡ true
sole-requeued id e row h p q = elim (Bool-cases (reaches e row)) [
  | inl r ↦ rw (r, q, p) refl
  | inr r ↦ rw r h
]

completed-not_running : (s : CompletionStatus) → str_eq (completion_status_text s) "running" ≡ false
completed-not_running completed = refl
completed-not_running failed = refl

abbrev is_claim : IntegrityStatement → Bool
is_claim (takes id started_at input) = true
is_claim _ = false

-- Any statement but a claim keeps the running task.
sole-written :
    (id : String) (e : IntegrityStatement) (row : IntegrityTask)
    → is_claim e ≡ false
    → is_sole id row ≡ true
    → is_sole id (written e row) ≡ true
sole-written id (creates active_key input new_id now) row c h = ground arith
sole-written id (recovers now) row c h = sole-requeued id (recovers now) row h refl refl
sole-written id (takes task_id started_at input) row c h = cc
sole-written id (renews task_id lease_owner lease_expires_at) row c h = ground arith
sole-written id (counts task_id lease_owner target_count now progress) row c h = ground arith
sole-written id (saves task_id lease_owner progress cursor now) row c h = ground arith
sole-written id (completes task_id lease_owner input now event_id) row c h =
    sole-requeued id (completes task_id lease_owner input now event_id) row h refl
      (completed-not_running input.status)
sole-written id (requeues task_id lease_owner) row c h =
    sole-requeued id (requeues task_id lease_owner) row h refl refl

-- A running row that does not keep the lease from a claim is the row that it claims.
sole_elsewhere :
    (id task_id : String) (row : IntegrityTask)
    → keeps_lease task_id row ≡ false
    → is_sole id row ≡ true
    → is_sole task_id row ≡ true
sole_elsewhere id task_id row k h = elim (Bool-cases (is_running row)) [
  | inr r ↦ rw r (rw r at h)
  | inl r ↦
      let held : is_text row.lease_key "storage-integrity" ≡ true = ground arith in
      let key : row.lease_key ≡ some "storage-integrity" =
        (is_text_iff row.lease_key "storage-integrity").0 held in
      let free : not (str_eq task_id row.id) && true ≡ false = rw key at k in
      ground (arith, eq_iff row.id task_id, eq_iff task_id row.id)
]

-- A claim that finds no other row with the lease key makes its task the running one.
sole-taken :
    (id task_id : String) (started_at : Option ℕ) (input : ClaimInput) (row : IntegrityTask)
    → keeps_lease task_id row ≡ false
    → is_sole id row ≡ true
    → is_sole task_id (written (takes task_id started_at input) row) ≡ true
sole-taken id task_id started_at input row k h = elim (Bool-cases (can_be_claimed task_id row)) [
  | inl r ↦ let same_id : str_eq row.id task_id ≡ true = ground arith in rw (r, same_id) refl
  | inr r ↦ rw r (sole_elsewhere id task_id row k h)
]

pub all-update_where :
    (P Q : IntegrityTask → Bool) (e : IntegrityStatement) (rows : List IntegrityTask)
    → ((row : IntegrityTask) → P row ≡ true → Q (written e row) ≡ true)
    → all P rows ≡ true
    → all Q (update_where (reaches e) (patches e) rows) ≡ true
all-update_where P Q e [] keep h = refl
all-update_where P Q e (x ∷ xs) keep h = ground (arith, keep x, all-update_where P Q e xs keep)

all-taken :
    (id task_id : String) (started_at : Option ℕ) (input : ClaimInput) (rows : List IntegrityTask)
    → any (keeps_lease task_id) rows ≡ false
    → all (is_sole id) rows ≡ true
    → all (is_sole task_id) (
        update_where
          (reaches (takes task_id started_at input))
          (patches (takes task_id started_at input))
          rows)
      ≡ true
all-taken id task_id started_at input [] k h = refl
all-taken id task_id started_at input (x ∷ xs) k h =
    let free : keeps_lease task_id x ≡ false = ground arith in
    let sole : is_sole id x ≡ true = ground arith in
    ground (
      arith,
      sole-taken id task_id started_at input x free sole,
      all-taken id task_id started_at input xs,
    )

abbrev SoleRows : List IntegrityTask → Type 0
SoleRows rows = (id : String) × (all (is_sole id) rows ≡ true)

written_rows :
    (e : IntegrityStatement) (rows : List IntegrityTask)
    → CanWrite e rows
    → SoleRows rows
    → SoleRows (update_where (reaches e) (patches e) rows)
written_rows (takes task_id started_at input) rows can (id, h) =
    (task_id, all-taken id task_id started_at input rows can h)
written_rows e rows can (id, h) =
    (id, all-update_where (is_sole id) (is_sole id) e rows (λ row. sole-written id e row refl) h)

rows_after :
    (e : IntegrityStatement) (rows after : List IntegrityTask)
    → Effect e rows after
    → SoleRows rows
    → SoleRows after
rows_after e rows after (inl same) sole = rw same sole
rows_after e rows after (inr (inl (can, p))) sole = rw p (written_rows e rows can sole)
rows_after e rows after (inr (inr (active_key, input, new_id, now, free, p))) (id, h) = (id, rw p h)

in_memory-IsExclusive :
    (es : List IntegrityStatement) (db : IntegrityDb)
    → IsExclusive db
    → IsExclusive (run in_memory es db)
unfolding run
in_memory-IsExclusive [] db h = h
in_memory-IsExclusive (e ∷ es) db h =
    in_memory-IsExclusive es (step in_memory e db)
      (rows_after e db.tasks (step in_memory e db).tasks (step-Effect e db) h)

-- Through any statements of the operations, by any owners at any times and in any order, with
-- whatever they read before: if all running tasks are one, which has the lease key, an owner and an
-- expiry, and no other row has the key, then that stays so.
pub run-IsExclusive :
    (c : Client)
    → IsPrisma c
    → (es : List IntegrityStatement) (db : IntegrityDb) → IsExclusive db
    → IsExclusive (run c es db)
run-IsExclusive c h es db sole =
    by_in_memory (λ k. IsExclusive (run k es db)) h (in_memory-IsExclusive es db sole)
