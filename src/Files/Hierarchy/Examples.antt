-- ===== src/Files/Hierarchy/Examples.antt =====
-- A folder in a folder in a folder, and a move of the innermost.
use icedr.Prelude.{
  ◌≡◌, ◌↔◌, refl, sym, inl, inr, Bool-cases, eq_iff, String, false, none, some, Option, List, [],
  ◌∷◌, filter, contains, length, str_eq,
}
use icedr.Files.Hierarchy.{
  FileNode, RowLocks, accepted, lock_and_validate_active_file_node_parent,
  lock_and_validate_file_node_move, find_node,
}
use icedr.Files.Hierarchy.Walks.{is_unfinished, parent_checks-end}
use icedr.Files.Hierarchy.Accepted.{
  at_root, climbs, Climbs, IsFolderOf, LocksRows, parent_check_iff,
}
use icedr.Files.Hierarchy.Moves.{move_row, move-keeps_Climbs}

abbrev folder : String → Option String → FileNode
folder id parent = record {
  id = id;
  kind = "folder";
  name = id;
  workspace_id = "w1";
  space_scope = "workspace";
  parent_node_id = parent;
  archived_at = none;
}

abbrev folders : List FileNode
folders = folder "a" none ∷ folder "b" (some "a") ∷ folder "c" (some "b") ∷ []

abbrev cycle : List FileNode
cycle = folder "a" (some "b") ∷ folder "b" (some "a") ∷ []

abbrev locks_ids : RowLocks
locks_ids = record { lock_rows = λ ids rows. length (filter (λ row. contains ids row.id) rows) }

locks_folders : LocksRows locks_ids folders
locks_folders id row e = elim (Bool-cases (str_eq "a" id)) [
  | inl s ↦ rw (sym ((eq_iff "a" id).0 s)) refl
  | inr m ↦ elim (Bool-cases (str_eq "b" id)) [
    | inl s ↦ rw (sym ((eq_iff "b" id).0 s)) refl
    | inr n ↦ elim (Bool-cases (str_eq "c" id)) [
      | inl s ↦ rw (sym ((eq_iff "c" id).0 s)) refl
      | inr k ↦ let e' = rw (m, n, k) at e in cc
    ]
  ]
]

parent_checks-end_example :
    (is_unfinished
        (lock_and_validate_active_file_node_parent locks_ids cycle (some "a") none "w1" "workspace")
      ≡ false)
    × (is_unfinished (lock_and_validate_file_node_move locks_ids cycle "c" (some "a")) ≡ false)
parent_checks-end_example = parent_checks-end locks_ids cycle (some "a") none "w1" "workspace" "c"

parent_check_iff_example :
    (lock_and_validate_active_file_node_parent locks_ids folders
        (some "b")
        (some "c")
        "w1"
        "workspace"
      ≡ accepted tt)
    ↔ (Climbs folders (some "c") (some "b")
        × ((row : FileNode) × (find_node folders "b" ≡ some row) × IsFolderOf "w1" "workspace" row))
parent_check_iff_example =
    parent_check_iff locks_ids folders "b" (some "c") "w1" "workspace" locks_folders refl

move-keeps_Climbs_example :
    Climbs (move_row "c" (some "a") folders) none (some "c")
    × Climbs (move_row "c" (some "a") folders) none (some "b")
unfolding lock_and_validate_file_node_move
move-keeps_Climbs_example =
    move-keeps_Climbs locks_ids folders "c" (some "a") (folder "c" (some "b")) (some "b") refl (
      climbs "b" (folder "b" (some "a")) refl refl refl refl
        (climbs "a" (folder "a" none) refl refl refl refl at_root))
