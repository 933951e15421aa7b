-- ===== src/Storage/Integrity/Targets/Saved.antt =====
-- Which rows `saveResult` of storage-integrity-task.repository.ts writes.
use icedr.Prelude.{
  eq_iff, ap, ◌∙◌, ℕ, String, ◌≡◌, refl, inl, inr, Bool, true, false, ◌&&◌, Option, none, some,
  List, if◌then◌else◌, ◌==◌, length, str_eq, any, find?, Rows, Rows-map, Rows-refl, Bool-cases,
  Option-cases, arith, map, filter, subst, sym,
}
use icedr.Prisma.{
  Client, IsPrisma, by_in_memory, in_memory, Outcome, resolved, thrown, then_run, update_where,
  roll_back,
}
use icedr.Storage.Integrity.Tasks.{IntegrityTask, is_held}
use icedr.Storage.Integrity.Targets.{
  TargetReference, BlobNode, BlobVersion, IntegrityResult, ResultDb, ResultError, SaveInput,
  is_node_of, is_version_of, is_moved_version, node_checked, version_checked, moved_to, given,
  persist_version, persist_moved, persist_node_found, persist_node_state, persist_target,
  persist_integrity_state,
}
use icedr.Storage.Integrity.Targets.Checked.{
  NodeKept, VersionKept, FindsNamed, given-eq, node_row, version_row,
}
use icedr.Storage.Integrity.Targets.Save.{
  create_result, persist_and_create, moved_reference, or_persist, save_moved, save_possibly_moved,
  save_new, save_unless_found, save_locked, lock_task, save_result, find_result, new_result,
  result_clash, is_result_of, may_be_moved, is_current_node,
}

abbrev pub Kept : SaveInput → ResultDb → ResultDb → Type 0
Kept input db after =
    Rows (NodeKept input) db.nodes after.nodes × Rows (VersionKept input) db.versions after.versions

Kept-refl : (input : SaveInput) (db : ResultDb) → Kept input db db
Kept-refl input db = (
  Rows-refl (NodeKept input) (λ x. inl refl) db.nodes,
  Rows-refl (VersionKept input) (λ x. inl refl) db.versions,
)

module _ (oldest : (BlobVersion → Bool) → List BlobVersion → Option BlobVersion) (input : SaveInput)
    (db : ResultDb) where
  Ends : {A : Type 0} → Outcome ResultError A × ResultDb → Type 0
  Ends p = Kept input db p.1

  nodes_checked :
      (id : String)
      → input.reference.node_id ≡ some id
      → Rows
          (NodeKept input)
          db.nodes
          (update_where (is_node_of input.reference id) (node_checked input) db.nodes)
  nodes_checked id e =
      Rows-map (NodeKept input)
        (λ x. if is_node_of input.reference id x then node_checked input x else x)
        (node_row input id e) db.nodes

  versions_checked :
      (test : BlobVersion → Bool)
      → FindsNamed input test
      → Rows (VersionKept input) db.versions (update_where test (version_checked input) db.versions)
  versions_checked test h =
      Rows-map (VersionKept input) (λ x. if test x then version_checked input x else x)
        (version_row input test h) db.versions

  moved-Kept :
      (nodes : List BlobNode) (node_id : String) (version : Option BlobVersion)
      → input.reference.node_id ≡ some node_id
      → Rows (NodeKept input) db.nodes nodes
      → Ends (persist_moved in_memory oldest input node_id version (record db { nodes = nodes }))
  unfolding persist_moved Ends
  moved-Kept nodes node_id none e n = (n, Rows-refl (VersionKept input) (λ x. inl refl) db.versions)
  moved-Kept nodes node_id (some version) e n = (
    n,
    versions_checked (λ v. is_version_of input.reference version.id v && str_eq v.node_id node_id)
        (λ v t.
          let this : v.node_id ≡ node_id = (eq_iff v.node_id node_id).0 (ground arith) in
          (inr (e ∙ ap some (sym this)), ground arith)),
  )

  found-Kept :
      (nodes : List BlobNode) (node_id : String) (b : Bool)
      → input.reference.node_id ≡ some node_id
      → Rows (NodeKept input) db.nodes nodes
      → Ends (persist_node_found in_memory oldest input node_id b (record db { nodes = nodes }))
  unfolding persist_node_found Ends
  found-Kept nodes node_id true e n = (n, Rows-refl (VersionKept input) (λ x. inl refl) db.versions)
  found-Kept nodes node_id false e n =
      moved-Kept nodes node_id (oldest (is_moved_version input.reference node_id nodes) db.versions)
        e n

  node-Kept :
      (o : Option String)
      → given input.reference.node_id ≡ o
      → Ends (persist_node_state in_memory oldest input o db)
  unfolding persist_node_state Ends
  node-Kept none g = Kept-refl input db
  node-Kept (some node_id) g =
      let e = given-eq input.reference.node_id node_id g in
      found-Kept (update_where (is_node_of input.reference node_id) (node_checked input) db.nodes)
        node_id
        (length (map (node_checked input) (filter (is_node_of input.reference node_id) db.nodes))
          == 1)
        e (nodes_checked node_id e)

  target-Kept :
      (o : Option String)
      → given input.reference.version_id ≡ o
      → Ends (persist_target in_memory oldest input o db)
  unfolding persist_target persist_version Ends
  target-Kept none g = node-Kept (given input.reference.node_id) refl
  target-Kept (some version_id) g = (
    Rows-refl (NodeKept input) (λ x. inl refl) db.nodes,
    versions_checked (is_version_of input.reference version_id) (λ v t.
        let this : v.id ≡ version_id = (eq_iff v.id version_id).0 (ground arith) in
        let e = given-eq input.reference.version_id version_id g in
        (inl (e ∙ ap some (sym this)), ground arith)),
  )

  persist-Kept : Ends (persist_integrity_state in_memory oldest input db)
  unfolding persist_integrity_state
  persist-Kept = target-Kept (given input.reference.version_id) refl

then-Kept :
    {A B : Type 0} (input : SaveInput) (db : ResultDb) (p : Outcome ResultError A × ResultDb)
    (f : A → ResultDb → Outcome ResultError B × ResultDb)
    → ((a : A) (after : ResultDb) → Kept input db after → Kept input db (f a after).1)
    → Kept input db p.1
    → Kept input db (then_run p f).1
then-Kept input db (resolved a, after) f h k = h a after k
then-Kept input db (thrown e, after) f h k = k

module _ (oldest : (BlobVersion → Bool) → List BlobVersion → Option BlobVersion) (now : ℕ)
    (result_id : String) (input : SaveInput) (db : ResultDb) where
  KeptBy : {A : Type 0} → Outcome ResultError A × ResultDb → Type 0
  KeptBy p = Kept input db p.1

  create-Kept :
      (reference : Option TargetReference) (after : ResultDb)
      → Kept input db after
      → KeptBy (create_result in_memory oldest now result_id input reference after)
  unfolding create_result KeptBy
  create-Kept reference after k =
      let row = new_result input result_id reference in
      elim (Bool-cases (any (result_clash row) after.results)) [
        | inl c ↦ rw (create_result, c) k
        | inr c ↦ rw (create_result, c) k
      ]

  persist_and_create-Kept : KeptBy (persist_and_create in_memory oldest now result_id input db)
  unfolding persist_and_create KeptBy Ends
  persist_and_create-Kept =
      then-Kept input db (persist_integrity_state in_memory oldest input db)
        (λ reference. create_result in_memory oldest now result_id input reference) create-Kept
        (persist-Kept oldest input db)

  or_persist-Kept :
      (row : Option IntegrityResult)
      → KeptBy (or_persist in_memory oldest now result_id input row db)
  unfolding or_persist KeptBy
  or_persist-Kept none = persist_and_create-Kept
  or_persist-Kept (some row) = Kept-refl input db

  save_moved-Kept :
      (reference : Option TargetReference)
      → KeptBy (save_moved in_memory oldest now result_id input reference db)
  unfolding save_moved find_result KeptBy
  save_moved-Kept none = persist_and_create-Kept
  save_moved-Kept (some reference) =
      or_persist-Kept (find? (is_result_of input.task_id reference.target_key) db.results)

  moved_reads :
      (node_id : String)
      → (o : Option TargetReference) × (moved_reference in_memory oldest now result_id input node_id
            db
          ≡ (resolved o, db))
  unfolding moved_reference
  moved_reads node_id =
      elim (Option-cases (find? (is_current_node input.reference node_id) db.nodes)) [
        | inr (node, p) ↦ (none, rw (moved_reference, p) refl)
        | inl p ↦
            elim (Option-cases
              (oldest (is_moved_version input.reference node_id db.nodes) db.versions)) [
                | inl q ↦ (none, rw (moved_reference, p, q) refl)
                | inr (version, q) ↦
                    (some (moved_to input.reference version.id), rw (moved_reference, p, q) refl)
              ]
      ]

  possibly_moved-Kept :
      (node_id : String) (row : Option IntegrityResult)
      → KeptBy (save_possibly_moved in_memory oldest now result_id input node_id row db)
  unfolding save_possibly_moved KeptBy
  possibly_moved-Kept node_id none = persist_and_create-Kept
  possibly_moved-Kept node_id (some row) =
      let (o, p) = moved_reads node_id in
      subst
        (λ r.
          Kept input db
            (then_run r (λ reference. save_moved in_memory oldest now result_id input reference)).1)
        (sym p) (save_moved-Kept o)

  new-Kept :
      (version_id node_id : Option String)
      → KeptBy (save_new in_memory oldest now result_id input version_id node_id db)
  unfolding save_new find_result KeptBy
  new-Kept none none = persist_and_create-Kept
  new-Kept none (some node_id) =
      possibly_moved-Kept node_id (find? (may_be_moved input node_id) db.results)
  new-Kept (some version_id) node_id = persist_and_create-Kept

  unless_found-Kept :
      (row : Option IntegrityResult)
      → KeptBy (save_unless_found in_memory oldest now result_id input row db)
  unfolding save_unless_found KeptBy
  unless_found-Kept none =
      new-Kept (given input.reference.version_id) (given input.reference.node_id)
  unless_found-Kept (some row) = Kept-refl input db

  locked-Kept : (b : Bool) → KeptBy (save_locked in_memory oldest now result_id input b db)
  unfolding save_locked find_result KeptBy
  locked-Kept false = Kept-refl input db
  locked-Kept true =
      unless_found-Kept (find? (is_result_of input.task_id input.reference.target_key) db.results)

  rolled-Kept :
      {A : Type 0} (p : Outcome ResultError A × ResultDb) → KeptBy p → KeptBy (roll_back db p)
  unfolding KeptBy
  rolled-Kept (resolved a, after) k = k
  rolled-Kept (thrown e, after) k = Kept-refl input db

-- A row with the owner of the lease written again.
abbrev owned_row : SaveInput → IntegrityTask → IntegrityTask
owned_row input row = record row { lease_owner = some input.lease_owner }

-- The rows of tasks once a save has locked its task.
abbrev locked_tasks : ℕ → SaveInput → ResultDb → List IntegrityTask
locked_tasks now input db =
    update_where (is_held input.task_id input.lease_owner now) (owned_row input) db.tasks

in_memory-Kept :
    (oldest : (BlobVersion → Bool) → List BlobVersion → Option BlobVersion) (now : ℕ)
    (result_id : String) (input : SaveInput) (db : ResultDb)
    → Kept input db (save_result in_memory oldest now result_id input db).1
unfolding save_result lock_task KeptBy
in_memory-Kept oldest now result_id input db =
    let locked = record db { tasks = locked_tasks now input db } in
    let held = filter (is_held input.task_id input.lease_owner now) db.tasks in
    let one = length (map (owned_row input) held) == 1 in
    rolled-Kept oldest now result_id input db
      (save_locked in_memory oldest now result_id input one locked)
      (locked-Kept oldest now result_id input locked one)

-- Whatever is saved and however it ends, every node and every version is afterwards as it was, or it is
-- one that the reference names, by its own id or a version by its node's, had the object key, the size,
-- the algorithm and the checksum of the reference, and has the outcome of the verification: its
-- status, time and failure code, no acknowledgement, and the checksum that was found if the content
-- matched and none was expected; the rest of it is as it was. This is for any client and any query
-- for the oldest version.
pub save_result-Kept :
    (c : Client)
    → IsPrisma c
    → (oldest : (BlobVersion → Bool) → List BlobVersion → Option BlobVersion) (now : ℕ)
      (result_id : String) (input : SaveInput) (db : ResultDb)
    → Kept input db (save_result c oldest now result_id input db).1
save_result-Kept c h oldest now result_id input db =
    by_in_memory (λ k. Kept input db (save_result k oldest now result_id input db).1) h
      (in_memory-Kept oldest now result_id input db)
