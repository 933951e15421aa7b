-- ===== src/Admin/Setup/History.antt =====
-- What the statements of setup-operation.service.ts do to the table in any order, whoever sends them.
use icedr.Prelude.{
  ℕ, ◌≡◌, ◌≢◌, refl, sym, String, Bool, true, false, List, [], ◌∷◌, arith, eq_iff, is_some,
  if◌then◌else◌, subst, all,
}
use icedr.Prisma.{Client, IsPrisma, by_in_memory, in_memory}
use icedr.Admin.Setup.{
  SetupOperationClaim, SetupOperation, SetupDb, BootstrapSetting, reclaimable, claimed,
  has_setup_key, owner_where, marked_irreversible, extended, completed, released, failed,
}
use icedr.Admin.Setup.Operations.{
  take_over, insert_claim, mark_irreversible, extend_lease, complete_with_bootstrap, release, fail,
}
use icedr.Admin.Setup.Claims.{one_operation}

-- One statement, by the operation that sends it. An insertion reads afterwards, and the read writes
-- nothing.
pub data SetupEvent : Type 0 where
  takes_over inserts marks extends completes releases fails : SetupOperationClaim → ℕ → SetupEvent

unfoldable pub step : Client → SetupEvent → SetupDb → SetupDb
step c (takes_over claim now) db = (take_over c claim now db).1
step c (inserts claim now) db = (insert_claim c claim now (λ d. d) db).1
step c (marks claim now) db = (mark_irreversible c claim now db).1
step c (extends claim now) db = (extend_lease c claim now db).1
step c (completes claim now) db = (complete_with_bootstrap c claim now db).1
step c (releases claim now) db = (release c claim now db).1
step c (fails claim now) db = (fail c claim now db).1

unfoldable pub run : Client → List SetupEvent → SetupDb → SetupDb
run c [] db = db
run c (e ∷ es) db = run c es (step c e db)

-- What a statement does to the only row of the table.
abbrev if_owner :
    SetupOperationClaim → (SetupOperation → SetupOperation) → SetupOperation → SetupOperation
if_owner claim patch row = if owner_where claim row then patch row else row

abbrev moved : SetupEvent → SetupOperation → SetupOperation
moved (takes_over claim now) row =
    if reclaimable claim.payload_fingerprint now row then claimed claim now row else row
moved (inserts claim now) row = row
moved (marks claim now) row = if_owner claim (marked_irreversible now) row
moved (extends claim now) row = if_owner claim (extended now) row
moved (completes claim now) row = if_owner claim (completed now) row
moved (releases claim now) row = if_owner claim (released now) row
moved (fails claim now) row = if_owner claim (failed now) row

step_one :
    (e : SetupEvent) (row : SetupOperation) (b : List BootstrapSetting)
    → has_setup_key row ≡ true
    → (step in_memory e (one_operation row b)).operations ≡ moved e row ∷ []
unfolding step take_over insert_claim mark_irreversible extend_lease complete_with_bootstrap release
    fail
step_one (takes_over claim now) row b h = ground arith
step_one (inserts claim now) row b h = ground arith
step_one (marks claim now) row b h = ground arith
step_one (extends claim now) row b h = ground arith
step_one (completes claim now) row b h = ground arith
step_one (releases claim now) row b h = ground arith
step_one (fails claim now) row b h = ground arith

moved-key :
    (e : SetupEvent) (row : SetupOperation)
    → has_setup_key row ≡ true
    → has_setup_key (moved e row) ≡ true
unfolding has_setup_key
moved-key (takes_over claim now) row h = ground arith
moved-key (inserts claim now) row h = h
moved-key (marks claim now) row h = ground arith
moved-key (extends claim now) row h = ground arith
moved-key (completes claim now) row h = ground arith
moved-key (releases claim now) row h = ground arith
moved-key (fails claim now) row h = ground arith

step_db :
    (e : SetupEvent) (db : SetupDb) (row : SetupOperation)
    → db.operations ≡ row ∷ []
    → has_setup_key row ≡ true
    → (step in_memory e db).operations ≡ moved e row ∷ []
step_db e db row p h =
    subst (λ d. (step in_memory e d).operations ≡ moved e row ∷ [])
      (λ i. record { operations = sym p i; bootstrap = db.bootstrap })
      (step_one e row db.bootstrap h)

-- What every permitted statement keeps of the row holds after any number of them.
module _ (P : SetupOperation → Type 0) (permitted : SetupEvent → Bool)
    (keep : (e : SetupEvent) (row : SetupOperation)
      → permitted e ≡ true
      → P row
      → P (moved e row)) where
  run_keeps :
      (es : List SetupEvent) (db : SetupDb) (row : SetupOperation)
      → all permitted es ≡ true
      → db.operations ≡ row ∷ []
      → has_setup_key row ≡ true
      → P row
      → (r : SetupOperation) × ((run in_memory es db).operations ≡ r ∷ []) × P r
  unfolding run
  run_keeps [] db row a p h q = (row, p, q)
  run_keeps (e ∷ es) db row a p h q =
      run_keeps es (step in_memory e db) (moved e row) (ground arith) (step_db e db row p h)
        (moved-key e row h) (keep e row (ground arith) q)

-- A row on which the setup was completed.
abbrev pub IsDone : SetupOperation → Type 0
IsDone row = (row.status ≡ "completed") × (is_some row.completed_at ≡ true)

not_owner_of_done :
    (claim : SetupOperationClaim) (row : SetupOperation)
    → IsDone row
    → owner_where claim row ≡ false
unfolding owner_where
not_owner_of_done claim row h =
    ground (arith, eq_iff row.status "running", eq_iff "completed" "running")

moved_done : (e : SetupEvent) (row : SetupOperation) → IsDone row → moved e row ≡ row
unfolding reclaimable
moved_done (takes_over claim now) row h = ground arith
moved_done (inserts claim now) row h = refl
moved_done (marks claim now) row h = rw (not_owner_of_done claim row h)
moved_done (extends claim now) row h = rw (not_owner_of_done claim row h)
moved_done (completes claim now) row h = rw (not_owner_of_done claim row h)
moved_done (releases claim now) row h = rw (not_owner_of_done claim row h)
moved_done (fails claim now) row h = rw (not_owner_of_done claim row h)

-- Once the setup is completed, no sequence of statements of any claims changes its row again.
pub completed_stays :
    (prisma : Client)
    → IsPrisma prisma
    → (es : List SetupEvent) (row : SetupOperation) (b : List BootstrapSetting)
    → has_setup_key row ≡ true
    → IsDone row
    → (run prisma es (one_operation row b)).operations ≡ row ∷ []
completed_stays prisma laws es row b h d =
    by_in_memory (λ c. (run c es (one_operation row b)).operations ≡ row ∷ []) laws
      (same (
        run_keeps (λ r. r ≡ row) (λ _. true)
          (λ e r _ q. subst (λ s. moved e s ≡ row) (sym q) (moved_done e row d)) es
          (one_operation row b) row (all_true es) refl h refl))
  where
    all_true : (es : List SetupEvent) → all (λ _. true) es ≡ true
    all_true [] = refl
    all_true (e ∷ es) = all_true es

    same :
        ((r : SetupOperation) × ((run in_memory es (one_operation row b)).operations ≡ r ∷ [])
          × (r ≡ row))
        → (run in_memory es (one_operation row b)).operations ≡ row ∷ []
    same (r, p, q) = subst (λ s. (run in_memory es (one_operation row b)).operations ≡ s ∷ []) q p

abbrev not_release : SetupEvent → Bool
not_release (releases _ _) = false
not_release _ = true

-- A row whose irreversible steps have begun under a payload.
abbrev pub IsLocked : String → SetupOperation → Type 0
IsLocked fingerprint row =
    (is_some row.irreversible_started_at ≡ true) × (row.payload_fingerprint ≡ fingerprint)

moved-IsLocked :
    (fingerprint : String) (e : SetupEvent) (row : SetupOperation)
    → not_release e ≡ true
    → IsLocked fingerprint row
    → IsLocked fingerprint (moved e row)
unfolding reclaimable
moved-IsLocked f (takes_over claim now) row a h =
    ground (arith, eq_iff row.payload_fingerprint claim.payload_fingerprint)
moved-IsLocked f (inserts claim now) row a h = h
moved-IsLocked f (marks claim now) row a h = ground arith
moved-IsLocked f (extends claim now) row a h = ground arith
moved-IsLocked f (completes claim now) row a h = ground arith
moved-IsLocked f (releases claim now) row a h = cc
moved-IsLocked f (fails claim now) row a h = ground arith

not_reclaimable_by_other :
    (fingerprint other : String) (now : ℕ) (row : SetupOperation)
    → other ≢ fingerprint
    → IsLocked fingerprint row
    → reclaimable other now row ≡ false
unfolding reclaimable
not_reclaimable_by_other f other now row h k = ground (arith, eq_iff row.payload_fingerprint other)

-- Once the irreversible steps have begun, every sequence of statements without a release leaves the
-- row with the payload under which they began, so that it cannot be claimed for another payload.
pub payload_stays-IsLocked :
    (prisma : Client)
    → IsPrisma prisma
    → (es : List SetupEvent) (fingerprint other : String) (now : ℕ) (row : SetupOperation)
      (b : List BootstrapSetting)
    → all not_release es ≡ true
    → has_setup_key row ≡ true
    → IsLocked fingerprint row
    → other ≢ fingerprint
    → (r : SetupOperation) × ((run prisma es (one_operation row b)).operations ≡ r ∷ [])
      × IsLocked fingerprint r
      × (reclaimable other now r ≡ false)
payload_stays-IsLocked prisma laws es f other now row b a h k ne =
    by_in_memory
      (λ c.
        (r : SetupOperation) × ((run c es (one_operation row b)).operations ≡ r ∷ [])
        × IsLocked f r
        × (reclaimable other now r ≡ false))
      laws
      (let (r, p, q) =
          run_keeps (IsLocked f) not_release (λ e s x y. moved-IsLocked f e s x y) es
            (one_operation row b) row a refl h k in
        (r, p, q, not_reclaimable_by_other f other now r ne q))
