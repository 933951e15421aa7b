-- ===== src/Files/Hierarchy/Moves.antt =====
-- What a move that `lockAndValidateFileNodeMove` accepts leaves of the hierarchy.
use icedr.Prelude.{
  any_of_find?, ◌≡◌, ◌∙◌, sym, ap, subst, refl, inl, inr, String, Bool, true, false, Option, none,
  some, List, [], ◌∷◌, str_eq, eq_iff, eq_refl, is_some, Bool-cases, arith, if◌then◌else◌,
}
use icedr.Prisma.{update_where}
use icedr.Prisma.Ensures.{find?-update_where}
use icedr.Files.Hierarchy.{
  FileNode, RowLocks, Checked, accepted, refused, rejected, unfinished, find_node, rounds,
  walk_ancestors, with_source, move_found, lock_and_validate_file_node_move,
}
use icedr.Files.Hierarchy.Accepted.{Climbs, at_root, at_empty, climbs, walk-Climbs}

-- The parent that `move` of the repository stores in the row.
abbrev pub with_parent : Option String → FileNode → FileNode
with_parent parent row = record row { parent_node_id = parent }

abbrev pub move_row : String → Option String → List FileNode → List FileNode
move_row id parent = update_where (λ row. str_eq row.id id) (with_parent parent)

str_eq_swap : (s t : String) → str_eq s t ≡ false → str_eq t s ≡ false
str_eq_swap s t f = elim (Bool-cases (str_eq t s)) [
  | inl e ↦ let g = rw ((eq_iff t s).0 e) at f in absurd (ground (arith, eq_refl s, eq_refl t))
  | inr n ↦ n
]

module _ (node_id : String) (parent : Option String) where
  find_node-moved :
      (id : String) (rows : List FileNode) {row : FileNode}
      → find_node rows id ≡ some row
      → find_node (move_row node_id parent rows) id
        ≡ some (if str_eq id node_id then with_parent parent row else row)
  find_node-moved id rows {row} e =
      let same : row.id ≡ id = (eq_iff row.id id).0 (any_of_find? (λ r. str_eq r.id id) rows e).0 in
      subst
        (λ t.
          find_node (move_row node_id parent rows) id
          ≡ some (if str_eq t node_id then with_parent parent row else row))
        same
        (find?-update_where (λ r. str_eq r.id id) (λ r. str_eq r.id node_id) (with_parent parent)
          (λ x. refl) rows e)

  -- What is not under the node keeps its way up.
  Climbs-beside :
      (rows : List FileNode) {o : Option String}
      → Climbs rows (some node_id) o
      → Climbs (move_row node_id parent rows) none o
  Climbs-beside rows at_root = at_root
  Climbs-beside rows at_empty = at_empty
  Climbs-beside rows (climbs id row e n f a c) =
      climbs id row (find_node-moved id rows e ∙ rw (str_eq_swap node_id id f) refl) n refl a
        (Climbs-beside rows c)

  Climbs-moved :
      (rows : List FileNode) {o : Option String}
      → Climbs (move_row node_id parent rows) none parent
      → Climbs rows none o
      → Climbs (move_row node_id parent rows) none o
  Climbs-moved rows up at_root = at_root
  Climbs-moved rows up at_empty = at_empty
  Climbs-moved rows up (climbs id row e n f a c) = elim (Bool-cases (str_eq id node_id)) [
    | inl s ↦ climbs id (with_parent parent row) (find_node-moved id rows e ∙ rw s refl) n refl a up
    | inr k ↦
        climbs id row (find_node-moved id rows e ∙ rw k refl) n refl a (Climbs-moved rows up c)
  ]

  Climbs-itself :
      (rows : List FileNode) (row : FileNode)
      → find_node rows node_id ≡ some row
      → is_some row.archived_at ≡ false
      → Climbs (move_row node_id parent rows) none parent
      → Climbs (move_row node_id parent rows) none (some node_id)
  Climbs-itself rows row e a up = elim (Bool-cases (str_eq node_id "")) [
    | inl s ↦
        subst (λ t. Climbs (move_row node_id parent rows) none (some t))
          (sym ((eq_iff node_id "").0 s)) at_empty
    | inr n ↦
        climbs node_id (with_parent parent row)
          (find_node-moved node_id rows e ∙ rw (eq_refl node_id) refl) n refl a up
  ]

unlocked :
    (missing : Bool) (result : Checked FileNode) {source : FileNode}
    → (if missing then refused else result) ≡ accepted source
    → result ≡ accepted source
unlocked true result h = cc
unlocked false result h = h

accepted_source :
    (source other : FileNode) (result : Checked (Unit {0}))
    → with_source other result ≡ accepted source
    → (other ≡ source) × (result ≡ accepted tt)
accepted_source source other (accepted x) h = (ap (accepted_or other) h, refl)
  where
    accepted_or : FileNode → Checked FileNode → FileNode
    accepted_or d (accepted row) = row
    accepted_or d _ = d
accepted_source source other refused h = cc
accepted_source source other (rejected e) h = cc
accepted_source source other unfinished h = cc

module _ (locks : RowLocks) (rows : List FileNode) (node_id : String) where
  move_found-walks :
      (p : String) (row : FileNode)
      → is_some row.archived_at ≡ false
      → str_eq p "" ≡ false
      → move_found locks rows node_id (some p) (some row)
        ≡ with_source row (
            walk_ancestors locks rows
              (some node_id)
              p
              row.workspace_id
              row.space_scope
              (rounds rows)
              (node_id ∷ p ∷ [])
              []
              (some p))
  unfolding move_found
  move_found-walks p row a n = rw (a, n) refl

  -- What an accepted move has checked.
  move_found-Climbs :
      (parent : Option String) (found : Option FileNode) (source : FileNode)
      → move_found locks rows node_id parent found ≡ accepted source
      → (found ≡ some source)
        × (is_some source.archived_at ≡ false)
        × Climbs rows (some node_id) parent
  unfolding move_found
  move_found-Climbs parent none source h = cc
  move_found-Climbs none (some row) source h = elim (Bool-cases (is_some row.archived_at)) [
    | inl a ↦ let h' = rw a at h in cc
    | inr a ↦
        let same = accepted_source source row (accepted tt) (rw a at h) in
        (ap some same.0, subst (λ r. is_some r.archived_at ≡ false) same.0 a, at_root)
  ]
  move_found-Climbs (some p) (some row) source h = elim (Bool-cases (is_some row.archived_at)) [
    | inl a ↦ let h' = rw a at h in cc
    | inr a ↦ elim (Bool-cases (str_eq p "")) [
      | inl e ↦
          let same = accepted_source source row (accepted tt) (rw (a, e) at h) in
          (
            ap some same.0,
            subst (λ r. is_some r.archived_at ≡ false) same.0 a,
            subst (λ t. Climbs rows (some node_id) (some t)) (sym ((eq_iff p "").0 e)) at_empty,
          )
      | inr n ↦
          let same = accepted_source source row _ (sym (move_found-walks p row a n) ∙ h) in
          (
            ap some same.0,
            subst (λ r. is_some r.archived_at ≡ false) same.0 a,
            walk-Climbs rows (some node_id) locks p row.workspace_id row.space_scope (rounds rows)
                (node_id ∷ p ∷ []) [] (some p) same.1,
          )
    ]
  ]

  move-Climbs :
      (parent : Option String) (source : FileNode)
      → lock_and_validate_file_node_move locks rows node_id parent ≡ accepted source
      → (find_node rows node_id ≡ some source)
        × (is_some source.archived_at ≡ false)
        × Climbs rows (some node_id) parent
  unfolding lock_and_validate_file_node_move
  move-Climbs parent source h =
      move_found-Climbs parent (find_node rows node_id) source (unlocked _ _ h)

-- A move that is accepted makes no cycle and loses nothing: once the parent is stored, there are only
-- rows that are not archived from the moved node up to a root, and from any node that had such a way
-- up before.
pub move-keeps_Climbs :
    (locks : RowLocks) (rows : List FileNode) (node_id : String) (parent : Option String)
    (source : FileNode) (other : Option String)
    → lock_and_validate_file_node_move locks rows node_id parent ≡ accepted source
    → Climbs rows none other
    → Climbs (move_row node_id parent rows) none (some node_id)
      × Climbs (move_row node_id parent rows) none other
move-keeps_Climbs locks rows node_id parent source other h before =
    let (e, a, c) = move-Climbs locks rows node_id parent source h in
    let up = Climbs-beside node_id parent rows c in
    (Climbs-itself node_id parent rows source e a up, Climbs-moved node_id parent rows up before)
