-- ===== src/Storage/Integrity/Tasks/Claims.antt =====
-- A claim of storage-integrity-task.repository.ts when no lease lives.
use icedr.Prelude.{
  ℕ, String, ◌≡◌, refl, Bool, true, false, Option, none, some, List, [], ◌∷◌, inl, inr, any, all,
  find?, not, ◌||◌, str_eq, is_none, leb, arith, Bool-cases, Option-cases, eq_iff, eq_refl,
  any_of_find?, subst, sym,
}
use mathlib.Core.List.{Mem, mem-cons, not-mem-nil}
use mathlib.Core.Bool.{Bool-set}
use mathlib.Core.Logic.Or
use icedr.Prisma.{Client, IsPrisma, by_in_memory, in_memory, update_where, resolved, Outcome}
use icedr.Storage.Integrity.Tasks.{
  IntegrityTask, IntegrityDb, IntegrityError, ClaimInput, is_queued, is_running, is_by, requeued,
  lease_has_expired, is_owned, task_claimed,
}
use icedr.Storage.Integrity.Tasks.Operations.{
  can_be_claimed, recover_expired_lease, take_task, take_candidate, claim_next_task, update_tasks,
}
use icedr.Storage.Integrity.Tasks.History.{keeps_lease, clash-eq-keeps_lease}
use icedr.Storage.Integrity.Tasks.Exclusive.{is_sole, IsExclusive}

-- A queued row that no queued row is older than.
abbrev pub IsOldest : IntegrityTask → List IntegrityTask → Type 0
IsOldest row rows =
    Mem row rows
    × (is_queued row ≡ true)
    × (all (λ r. not (is_queued r) || leb row.created_at r.created_at) rows ≡ true)

-- What the query for a candidate documents: the oldest queued row, and none only if there is none.
pub record FindsOldest (oldest_queued : List IntegrityTask → Option IntegrityTask) : Type 0 where
  pub finds :
      (rows : List IntegrityTask) (row : IntegrityTask)
      → oldest_queued rows ≡ some row
      → IsOldest row rows
  pub finds_none :
      (rows : List IntegrityTask) → oldest_queued rows ≡ none → any is_queued rows ≡ false

-- The tasks whose lease has run out, and those that are not running.
abbrev pub is_free : ℕ → IntegrityTask → Bool
is_free now row = not (is_running row) || is_by now row.lease_expires_at

abbrev pub is_waiting : IntegrityTask → Bool
is_waiting row = is_queued row || is_running row

abbrev pub recovered : ℕ → List IntegrityTask → List IntegrityTask
recovered now rows = update_where (lease_has_expired now) requeued rows

no_lease_key :
    (id : String) (now : ℕ) (rows : List IntegrityTask)
    → all (is_sole id) rows ≡ true
    → all (is_free now) rows ≡ true
    → all (λ r. is_none r.lease_key) (recovered now rows) ≡ true
no_lease_key id now [] h f = refl
no_lease_key id now (x ∷ xs) h f = elim (Bool-cases (is_running x)) [
  | inl r ↦ ground (arith, no_lease_key id now xs)
  | inr r ↦ ground (arith, no_lease_key id now xs)
]

some_queued :
    (now : ℕ) (rows : List IntegrityTask)
    → all (is_free now) rows ≡ true
    → any is_waiting rows ≡ true
    → any is_queued (recovered now rows) ≡ true
some_queued now [] f w = cc
some_queued now (x ∷ xs) f w = elim (Bool-cases (lease_has_expired now x)) [
  | inl r ↦ rw r refl
  | inr r ↦ rw r (ground (arith, some_queued now xs))
]

nobody_keeps :
    (id : String) (rows : List IntegrityTask)
    → all (λ r. is_none r.lease_key) rows ≡ true
    → any (keeps_lease id) rows ≡ false
nobody_keeps id [] h = refl
nobody_keeps id (x ∷ xs) h = ground (arith, nobody_keeps id xs)

any_of_Mem :
    (p : IntegrityTask → Bool) (row : IntegrityTask) (rows : List IntegrityTask)
    → p row ≡ true
    → Mem row rows
    → any p rows ≡ true
any_of_Mem p row [] h m = absurd (not-mem-nil m)
any_of_Mem p row (x ∷ xs) h m =
    Or.elim (Bool-set (any p (x ∷ xs)) true) (mem-cons.0 m)
      (λ e. ground (arith, subst (λ r. p r ≡ true) e h))
      (λ k. ground (arith, any_of_Mem p row xs h k))

find?_of_any :
    (p : IntegrityTask → Bool) (rows : List IntegrityTask)
    → any p rows ≡ true
    → (row : IntegrityTask) × (find? p rows ≡ some row)
find?_of_any p [] h = cc
find?_of_any p (x ∷ xs) h = elim (Bool-cases (p x)) [
  | inl t ↦ (x, rw t refl)
  | inr n ↦ let (row, found) = find?_of_any p xs (rw n at h) in (row, rw n found)
]

-- A claimed row: the oldest queued one of the rows, now running and the owner's.
abbrev pub IsClaimed :
    ClaimInput
    → List IntegrityTask
    → Outcome IntegrityError (Option IntegrityTask) × IntegrityDb
    → Type 0
IsClaimed input rows (resolved (some row), after) =
    (candidate : IntegrityTask) × IsOldest candidate rows
    × (row.id ≡ candidate.id)
    × (is_owned row.id input.lease_owner row ≡ true)
    × (row.lease_expires_at ≡ some input.lease_expires_at)
    × (any (is_owned row.id input.lease_owner) after.tasks ≡ true)
IsClaimed input rows _ = ⊥

any_written :
    (id : String) (started_at : Option ℕ) (input : ClaimInput) (rows : List IntegrityTask)
    → any (can_be_claimed id) rows ≡ true
    → any
        (is_owned id input.lease_owner)
        (update_where (can_be_claimed id) (task_claimed input started_at) rows)
      ≡ true
any_written id started_at input [] h = cc
any_written id started_at input (x ∷ xs) h = elim (Bool-cases (can_be_claimed id x)) [
  | inl t ↦
      let same_id : str_eq x.id id ≡ true = ground arith in
      rw (t, same_id, eq_refl input.lease_owner) refl
  | inr n ↦ rw n (ground (arith, any_written id started_at input xs))
]

take-IsClaimed :
    (input : ClaimInput) (candidate : IntegrityTask) (db : IntegrityDb)
    → IsOldest candidate db.tasks
    → all (λ r. is_none r.lease_key) db.tasks ≡ true
    → IsClaimed input db.tasks (take_task in_memory candidate.id candidate.started_at input db)
unfolding take_task
take-IsClaimed input candidate db oldest free =
    let there : any (can_be_claimed candidate.id) db.tasks ≡ true =
      any_of_Mem (can_be_claimed candidate.id) candidate db.tasks
        (rw (eq_refl candidate.id) oldest.1) oldest.0 in
    let (row, found) = find?_of_any (can_be_claimed candidate.id) db.tasks there in
    let claimable = (any_of_find? (can_be_claimed candidate.id) db.tasks found).0 in
    let same_id : str_eq row.id candidate.id ≡ true = ground arith in
    let clash = clash-eq-keeps_lease candidate.id candidate.started_at input row db.tasks same_id in
    let nobody = nobody_keeps candidate.id db.tasks free in
    rw (take_task, found, clash, nobody)
      (
        candidate,
        oldest,
        (eq_iff row.id candidate.id).0 same_id,
        rw (eq_refl row.id, eq_refl input.lease_owner) refl,
        refl,
        subst
            (λ i.
              any (is_owned i input.lease_owner) (
                update_where (can_be_claimed candidate.id) (task_claimed input candidate.started_at)
                  db.tasks)
              ≡ true)
            (sym ((eq_iff row.id candidate.id).0 same_id))
            (any_written candidate.id candidate.started_at input db.tasks there),
      )

candidate-IsClaimed :
    (input : ClaimInput) (oldest_queued : List IntegrityTask → Option IntegrityTask)
    (db : IntegrityDb)
    → FindsOldest oldest_queued
    → any is_queued db.tasks ≡ true
    → all (λ r. is_none r.lease_key) db.tasks ≡ true
    → IsClaimed input db.tasks (take_candidate in_memory input (λ d. d) (oldest_queued db.tasks) db)
unfolding take_candidate
candidate-IsClaimed input oldest_queued db f queued free =
    elim (Option-cases (oldest_queued db.tasks)) [
      | inl p ↦ let nobody : any is_queued db.tasks ≡ false = f.finds_none db.tasks p in cc
      | inr (candidate, p) ↦
          rw p (take-IsClaimed input candidate db (f.finds db.tasks candidate p) free)
    ]

in_memory-IsClaimed :
    (oldest_queued : List IntegrityTask → Option IntegrityTask)
    → FindsOldest oldest_queued
    → (input : ClaimInput) (db : IntegrityDb) (id : String) → all (is_sole id) db.tasks ≡ true
    → all (is_free input.now) db.tasks ≡ true
    → any is_waiting db.tasks ≡ true
    → IsClaimed input
        (recovered input.now db.tasks)
        (claim_next_task in_memory oldest_queued input (λ d. d) (λ d. d) db)
unfolding claim_next_task recover_expired_lease update_tasks
in_memory-IsClaimed oldest_queued f input db id sole free waiting =
    candidate-IsClaimed input oldest_queued (record db { tasks = recovered input.now db.tasks }) f
      (some_queued input.now db.tasks free waiting) (no_lease_key id input.now db.tasks sole free)

-- When all running tasks are one that has the lease, its lease has run out at the time of a claim, a
-- task is queued or running, and nothing is written between the statements of the claim, then the
-- claim returns a task. It has the id of the oldest queued task of those with the expired lease put
-- back, and it runs under the lease and the owner of the claim, in the table too. This is for any
-- client and any query that finds the oldest queued task.
pub claim_next_task-IsClaimed :
    (c : Client)
    → IsPrisma c
    → (oldest_queued : List IntegrityTask → Option IntegrityTask) → FindsOldest oldest_queued
    → (input : ClaimInput) (db : IntegrityDb) → IsExclusive db
    → all (is_free input.now) db.tasks ≡ true
    → any is_waiting db.tasks ≡ true
    → IsClaimed input
        (recovered input.now db.tasks)
        (claim_next_task c oldest_queued input (λ d. d) (λ d. d) db)
claim_next_task-IsClaimed c h oldest_queued f input db (id, sole) free waiting =
    by_in_memory
      (λ k.
        IsClaimed input (recovered input.now db.tasks)
          (claim_next_task k oldest_queued input (λ d. d) (λ d. d) db))
      h (in_memory-IsClaimed oldest_queued f input db id sole free waiting)
