-- ===== src/Files/Hierarchy/Accepted.antt =====
-- Which parent folders `lockAndValidateActiveFileNodeParent` accepts.
use icedr.Prelude.{
  some-injective, ℕ, zero, suc, ◌<◌, ◌≡◌, ◌∙◌, sym, ap, subst, refl, ◌↔◌, inl, inr, String, true,
  false, Option, none, some, List, [], ◌∷◌, str_eq, eq_iff, length, contains, is_some, is_text,
  Bool-cases, Option-cases, All, arith, any_of_find?,
}
use icedr.Files.Hierarchy.{
  FileNode, RowLocks, Checked, accepted, lock_file_node_rows, find_node, parent_error,
  ancestor_error, walk_ancestors, rounds, lock_and_validate_active_file_node_parent,
}
use icedr.Files.Hierarchy.Walks.{is_unfinished, walk-rounds}

-- From the node up to a root there are only rows that are not archived, and none is the forbidden
-- one. An empty id is no parent, as the code tests it.
pub data Climbs (rows : List FileNode) (forbidden : Option String) : Option String → Type 0 where
  at_root : Climbs rows forbidden none
  at_empty : Climbs rows forbidden (some "")
  climbs :
      (id : String) (row : FileNode)
      → find_node rows id ≡ some row
      → str_eq id "" ≡ false
      → is_text forbidden id ≡ false
      → is_some row.archived_at ≡ false
      → Climbs rows forbidden row.parent_node_id
      → Climbs rows forbidden (some id)

-- The row is a folder of the workspace and of the space.
abbrev pub IsFolderOf : (workspace_id space_scope : String) → FileNode → Type 0
IsFolderOf workspace_id space_scope row =
    (row.kind ≡ "folder") × (row.workspace_id ≡ workspace_id) × (row.space_scope ≡ space_scope)

-- The statement that locks one row finds the row that is there: an id is a primary key.
abbrev pub LocksRows : RowLocks → List FileNode → Type 0
LocksRows locks rows =
    (id : String) (row : FileNode)
    → find_node rows id ≡ some row
    → locks.lock_rows (id ∷ []) rows ≡ 1

parent_error_iff :
    (workspace_id space_scope : String) (row : FileNode)
    → (parent_error workspace_id space_scope row ≡ none) ↔ IsFolderOf workspace_id space_scope row
parent_error_iff workspace_id space_scope row = ground (
  arith,
  eq_iff row.kind "folder",
  eq_iff row.workspace_id workspace_id,
  eq_iff row.space_scope space_scope,
)

not_empty : (id : String) → str_eq id "" ≡ false → id ≡ "" → ⊥
not_empty id n q = ground (arith, (eq_iff id "").1 q)

module _ (rows : List FileNode) (forbidden : Option String) where
  depth : {o : Option String} → Climbs rows forbidden o → ℕ
  depth at_root = 0
  depth at_empty = 0
  depth (climbs id row e n f a c) = suc (depth c)

  depth_unique :
      {o p : Option String} (c : Climbs rows forbidden o) (d : Climbs rows forbidden p)
      → o ≡ p
      → depth c ≡ depth d
  unfolding depth
  depth_unique at_root at_root q = refl
  depth_unique at_root at_empty q = cc
  depth_unique at_root (climbs id row e n f a c) q = cc
  depth_unique at_empty at_root q = cc
  depth_unique at_empty at_empty q = refl
  depth_unique at_empty (climbs id row e n f a c) q =
      absurd (not_empty id n (sym (some-injective q)))
  depth_unique (climbs id row e n f a c) at_root q = cc
  depth_unique (climbs id row e n f a c) at_empty q = absurd (not_empty id n (some-injective q))
  depth_unique (climbs id row e n f a c) (climbs id' row' e' n' f' a' d) q =
      let i : some row ≡ some row' = sym e ∙ ap (find_node rows) (some-injective q) ∙ e' in
      ap suc (depth_unique c d (ap (λ r. r.parent_node_id) (some-injective i)))

  abbrev Above : {o : Option String} → Climbs rows forbidden o → List String → Type 0
  Above c visited = All (λ v. (d : Climbs rows forbidden (some v)) × (depth c < depth d)) visited

  Above-not_contains :
      {id : String} (c : Climbs rows forbidden (some id)) (visited : List String)
      → Above c visited
      → contains visited id ≡ false
  Above-not_contains c [] h = refl
  Above-not_contains {id} c (v ∷ visited) ((d, l), h) = elim (Bool-cases (str_eq v id)) [
    | inl e ↦
        let same = depth_unique c d (ap some (sym ((eq_iff v id).0 e))) in
        absurd (omega (arith, same, l))
    | inr e ↦ ground (arith, Above-not_contains c visited h)
  ]

  Above-below :
      {o p : Option String} (c : Climbs rows forbidden o) (d : Climbs rows forbidden p)
      → depth c < depth d
      → (visited : List String) → Above d visited
      → Above c visited
  Above-below c d l [] h = tt
  Above-below c d l (v ∷ visited) ((u, k), h) =
      ((u, omega (arith, l, k)), Above-below c d l visited h)

  module _ (locks : RowLocks) (parent_node_id workspace_id space_scope : String) where
    abbrev walk : ℕ → List String → List String → Option String → Checked (Unit {0})
    walk = walk_ancestors locks rows forbidden parent_node_id workspace_id space_scope

    accepted_step :
        (fuel : ℕ) (locked visited : List String) (id : String)
        → str_eq id "" ≡ false
        → walk (suc fuel) locked visited (some id) ≡ accepted tt
        → (row : FileNode) × (find_node rows id ≡ some row)
          × (is_text forbidden id ≡ false)
          × (is_some row.archived_at ≡ false)
          × (ancestor_error parent_node_id workspace_id space_scope row ≡ none)
          × (walk fuel (id ∷ locked) (id ∷ visited) row.parent_node_id ≡ accepted tt)
    unfolding walk_ancestors
    accepted_step fuel locked visited id n h = elim (Option-cases (find_node rows id)) [
      | inl e ↦ let h' = rw e at h in absurd (ground arith)
      | inr (row, e) ↦
          let h' = rw e at h in (row, e, ground arith, ground arith, ground arith, ground arith)
    ]

    pub walk-Climbs :
        (fuel : ℕ) (locked visited : List String) (ancestor : Option String)
        → walk fuel locked visited ancestor ≡ accepted tt
        → Climbs rows forbidden ancestor
    unfolding walk_ancestors
    walk-Climbs zero locked visited ancestor h = cc
    walk-Climbs (suc fuel) locked visited none h = at_root
    walk-Climbs (suc fuel) locked visited (some id) h = elim (Bool-cases (str_eq id "")) [
      | inl e ↦ subst (λ t. Climbs rows forbidden (some t)) (sym ((eq_iff id "").0 e)) at_empty
      | inr n ↦
          let (row, e, f, a, k, rest) = accepted_step fuel locked visited id n h in
          climbs id row e n f a
            (walk-Climbs fuel (id ∷ locked) (id ∷ visited) row.parent_node_id rest)
    ]

    module _ (locking : LocksRows locks rows)
        (fits : (row : FileNode)
          → find_node rows parent_node_id ≡ some row
          → parent_error workspace_id space_scope row ≡ none) where
      fits_ancestor :
          (id : String) (row : FileNode)
          → find_node rows id ≡ some row
          → ancestor_error parent_node_id workspace_id space_scope row ≡ none
      fits_ancestor id row e = elim (Bool-cases (str_eq row.id parent_node_id)) [
        | inr n ↦ rw n refl
        | inl s ↦
            let found = (eq_iff row.id id).0 (any_of_find? (λ r. str_eq r.id id) rows e).0 in
            let same : id ≡ parent_node_id = sym found ∙ (eq_iff row.id parent_node_id).0 s in
            rw s (fits row (subst (λ t. find_node rows t ≡ some row) same e))
      ]

      locks_found :
          (id : String) (row : FileNode)
          → find_node rows id ≡ some row
          → lock_file_node_rows locks rows (id ∷ []) ≡ true
      unfolding lock_file_node_rows
      locks_found id row e = rw (locking id row e) refl

      walk-accepts :
          (fuel : ℕ) (locked visited : List String) (ancestor : Option String)
          (c : Climbs rows forbidden ancestor)
          → Above c visited
          → is_unfinished (walk fuel locked visited ancestor) ≡ false
          → walk fuel locked visited ancestor ≡ accepted tt
      unfolding walk_ancestors depth
      walk-accepts zero locked visited ancestor c above h = cc
      walk-accepts (suc fuel) locked visited none c above h = refl
      walk-accepts (suc fuel) locked visited (some _) at_empty above h = refl
      walk-accepts (suc fuel) locked visited (some _) (climbs id row e n f a c) above h =
          let l = locks_found id row e in
          let k = fits_ancestor id row e in
          let v = Above-not_contains (climbs id row e n f a c) visited above in
          let next = walk-accepts fuel (id ∷ locked) (id ∷ visited) row.parent_node_id c (
            (climbs id row e n f a c, omega arith),
            Above-below c (climbs id row e n f a c) (omega arith) visited above,
          ) in
          let h' = rw (e, n, f, a, l, k, v) at h in rw (e, n, f, a, l, k, v) (ground (arith, next))

parent_check-eq :
    (locks : RowLocks) (rows : List FileNode) (parent : String) (forbidden : Option String)
    (workspace_id space_scope : String)
    → str_eq parent "" ≡ false
    → lock_and_validate_active_file_node_parent locks rows
        (some parent)
        forbidden
        workspace_id
        space_scope
      ≡ walk_ancestors locks rows forbidden parent workspace_id space_scope
          (rounds rows)
          []
          []
          (some parent)
unfolding lock_and_validate_active_file_node_parent
parent_check-eq locks rows parent forbidden workspace_id space_scope n = rw n refl

-- A parent folder is accepted exactly when from it up to a root there are only rows that are not
-- archived and that are not the forbidden one, and it is itself a folder of the workspace and the
-- space: if its id is not empty and the statement that locks one row finds the row that is there.
pub parent_check_iff :
    (locks : RowLocks) (rows : List FileNode) (parent : String) (forbidden : Option String)
    (workspace_id space_scope : String)
    → LocksRows locks rows
    → str_eq parent "" ≡ false
    → (lock_and_validate_active_file_node_parent locks rows
          (some parent)
          forbidden
          workspace_id
          space_scope
        ≡ accepted tt)
      ↔ (Climbs rows forbidden (some parent)
          × ((row : FileNode) × (find_node rows parent ≡ some row)
              × IsFolderOf workspace_id space_scope row))
parent_check_iff locks rows parent forbidden workspace_id space_scope locking n =
    let same = parent_check-eq locks rows parent forbidden workspace_id space_scope n in
    (
      λ h.
          let h' = sym same ∙ h in
          let (row, e, f, a, k, rest) =
            accepted_step rows forbidden locks parent workspace_id space_scope (length rows) [] []
              parent n h' in
          let itself : str_eq row.id parent ≡ true =
            (any_of_find? (λ r. str_eq r.id parent) rows e).0 in
          (
            walk-Climbs rows forbidden locks parent workspace_id space_scope (rounds rows) [] []
                (some parent) h',
            (row, e, (parent_error_iff workspace_id space_scope row).0 (rw itself at k)),
          ),
      λ h.
          let (c, (row, e, folder)) = h in
          same
          ∙ walk-accepts rows forbidden locks parent workspace_id space_scope locking
              (λ other e'.
                (parent_error_iff workspace_id space_scope other).1 (
                  subst (IsFolderOf workspace_id space_scope) (some-injective (sym e ∙ e')) folder))
              (rounds rows) [] [] (some parent) c tt
              (walk-rounds locks rows forbidden parent workspace_id space_scope [] (some parent)),
    )
