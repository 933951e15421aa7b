-- ===== src/Files/Hierarchy/Walks.antt =====
-- How the walk over the ancestors of a node ends.
use icedr.Prelude.{
  ℕ, zero, suc, ◌≤◌, ◌<◌, ◌≡◌, refl, inl, inr, String, Bool, true, false, not, Option, none, some,
  List, [], ◌∷◌, str_eq, eq_iff, eq_refl, length, filter, contains, Bool-cases, Option-cases, arith,
}
use icedr.Files.Hierarchy.{
  FileNode, RowLocks, Checked, accepted, refused, rejected, unfinished, find_node, walk_ancestors,
  rounds, lock_and_validate_active_file_node_parent, with_source, move_found,
  lock_and_validate_file_node_move,
}

abbrev pub is_unfinished : {A : Type 0} → Checked A → Bool
is_unfinished unfinished = true
is_unfinished _ = false

-- The rows that the walk may still meet.
abbrev unvisited : List String → List FileNode → ℕ
unvisited visited rows = length (filter (λ row. not (contains visited row.id)) rows)

unvisited-le-length :
    (visited : List String) (rows : List FileNode) → unvisited visited rows ≤ length rows
unvisited-le-length visited [] = omega arith
unvisited-le-length visited (x ∷ xs) = ground (arith, unvisited-le-length visited xs)

unvisited-le :
    (id : String) (visited : List String) (rows : List FileNode)
    → unvisited (id ∷ visited) rows ≤ unvisited visited rows
unvisited-le id visited [] = omega arith
unvisited-le id visited (x ∷ xs) = ground (arith, unvisited-le id visited xs)

unvisited-lt :
    (id : String) (visited : List String) (rows : List FileNode) {row : FileNode}
    → find_node rows id ≡ some row
    → contains visited id ≡ false
    → unvisited (id ∷ visited) rows < unvisited visited rows
unvisited-lt id visited [] h k = cc
unvisited-lt id visited (x ∷ xs) {row} h k = elim (Bool-cases (str_eq x.id id)) [
  | inl e ↦
      let same : x.id ≡ id = (eq_iff x.id id).0 e in
      let seen : str_eq id x.id ≡ true = rw same (eq_refl id) in
      let fresh : contains visited x.id ≡ false = rw same k in
      ground (arith, unvisited-le id visited xs)
  | inr e ↦ ground (arith, unvisited-lt id visited xs {row = row})
]

module _ (locks : RowLocks) (rows : List FileNode) (forbidden : Option String)
    (parent_node_id workspace_id space_scope : String) where
  walk-ends :
      (fuel : ℕ) (locked visited : List String) (ancestor : Option String)
      → unvisited visited rows < fuel
      → is_unfinished (
          walk_ancestors locks rows forbidden parent_node_id workspace_id space_scope fuel locked
            visited ancestor)
        ≡ false
  unfolding walk_ancestors
  walk-ends zero locked visited ancestor l = absurd (omega arith)
  walk-ends (suc fuel) locked visited none l = refl
  walk-ends (suc fuel) locked visited (some id) l = elim (Bool-cases (contains visited id)) [
    | inl seen ↦ rw seen (ground arith)
    | inr fresh ↦ elim (Option-cases (find_node rows id)) [
      | inl e ↦ rw (fresh, e) (ground arith)
      | inr (row, e) ↦
          let rest =
            walk-ends fuel (id ∷ locked) (id ∷ visited) row.parent_node_id
              (omega (arith, unvisited-lt id visited rows e fresh)) in
          rw (fresh, e) (ground (arith, rest))
    ]
  ]

  pub walk-rounds :
      (locked : List String) (ancestor : Option String)
      → is_unfinished (
          walk_ancestors locks rows forbidden parent_node_id workspace_id space_scope
            (rounds rows)
            locked
            []
            ancestor)
        ≡ false
  walk-rounds locked ancestor =
      walk-ends (rounds rows) locked [] ancestor (omega (arith, unvisited-le-length [] rows))

with_source-ends :
    (source : FileNode) (result : Checked (Unit {0}))
    → is_unfinished result ≡ false
    → is_unfinished (with_source source result) ≡ false
with_source-ends source (accepted x) h = refl
with_source-ends source refused h = refl
with_source-ends source (rejected e) h = refl
with_source-ends source unfinished h = h

module _ (locks : RowLocks) (rows : List FileNode) (node_id : String) where
  parent_check-ends :
      (parent forbidden : Option String) (workspace_id space_scope : String)
      → is_unfinished (
          lock_and_validate_active_file_node_parent locks rows parent forbidden workspace_id
            space_scope)
        ≡ false
  unfolding lock_and_validate_active_file_node_parent
  parent_check-ends none forbidden workspace_id space_scope = refl
  parent_check-ends (some p) forbidden workspace_id space_scope =
      ground (arith, walk-rounds locks rows forbidden p workspace_id space_scope [] (some p))

  move_found-ends :
      (parent : Option String) (source : Option FileNode)
      → is_unfinished (move_found locks rows node_id parent source) ≡ false
  unfolding move_found
  move_found-ends parent none = refl
  move_found-ends none (some source) = ground arith
  move_found-ends (some p) (some source) = ground (
    arith,
    with_source-ends source _ (
        walk-rounds locks rows (some node_id) p source.workspace_id source.space_scope
          (node_id ∷ p ∷ []) (some p)),
  )

  move_check-ends :
      (parent : Option String)
      → is_unfinished (lock_and_validate_file_node_move locks rows node_id parent) ≡ false
  unfolding lock_and_validate_file_node_move
  move_check-ends parent = ground (arith, move_found-ends parent (find_node rows node_id))

-- With a round for each row of the table and one more, neither check of a parent folder runs out of
-- rounds: on every table, cyclic ones too, the loops over the ancestors end.
pub parent_checks-end :
    (locks : RowLocks) (rows : List FileNode) (parent forbidden : Option String)
    (workspace_id space_scope node_id : String)
    → (is_unfinished (
          lock_and_validate_active_file_node_parent locks rows parent forbidden workspace_id
            space_scope)
        ≡ false)
      × (is_unfinished (lock_and_validate_file_node_move locks rows node_id parent) ≡ false)
parent_checks-end locks rows parent forbidden workspace_id space_scope node_id = (
  parent_check-ends locks rows node_id parent forbidden workspace_id space_scope,
  move_check-ends locks rows node_id parent,
)
