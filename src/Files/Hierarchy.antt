-- ===== src/Files/Hierarchy.antt =====
-- backend/src/modules/files/file-node-hierarchy-write.ts: the checks under locks before a node is
-- created in a folder or moved. A row that is locked does not change until the transaction ends, and
-- every row is read after its lock: the table is the one in which each row is as it was then.
pub mod Accepted
pub mod Walks
pub mod Moves
mod Examples
use icedr.Prelude.{
  ℕ, zero, suc, String, Bool, true, false, not, ◌&&◌, ◌||◌, Option, none, some, List, [], ◌∷◌,
  if◌then◌else◌, ◌==◌, str_eq, length, contains, find?, is_some, is_none, same_text, is_text,
  is_empty,
}

pub record FileNode : Type 0 where
  pub id : String
  pub kind : String
  pub name : String
  pub workspace_id : String
  pub space_scope : String
  pub parent_node_id : Option String
  pub archived_at : Option ℕ

-- What the database does besides reads: the number of the rows with these ids that a statement
-- locks.
pub record RowLocks : Type 0 where
  pub lock_rows : List String → List FileNode → ℕ

pub data BadRequest : Type 0 where
  inside_own_child cyclic_parents parent_not_folder other_workspace other_space : BadRequest

-- What a check ends with: a result, `false` or null, or an exception. `unfinished` is no result of
-- the code: it says that the fuel ran out.
pub data Checked (A : Type 0) : Type 0 where
  accepted : A → Checked A
  refused : Checked A
  rejected : BadRequest → Checked A
  unfinished : Checked A

-- `[...new Set(ids)]`
abbrev pub without : String → List String → List String
without id [] = []
without id (x ∷ xs) = let rest = without id xs in if str_eq x id then rest else x ∷ rest

abbrev pub distinct : List String → List String
distinct [] = []
distinct (x ∷ xs) = x ∷ without x (distinct xs)

abbrev pub find_node : List FileNode → String → Option FileNode
find_node rows id = find? (λ row. str_eq row.id id) rows

-- The tests on the parent itself.
abbrev pub parent_error : (workspace_id space_scope : String) → FileNode → Option BadRequest
parent_error workspace_id space_scope row =
    if not (str_eq row.kind "folder")
    then some parent_not_folder
    else if not (str_eq row.workspace_id workspace_id)
    then some other_workspace
    else if not (str_eq row.space_scope space_scope)
    then some other_space
    else none

abbrev pub ancestor_error :
    (parent_node_id workspace_id space_scope : String) → FileNode → Option BadRequest
ancestor_error parent_node_id workspace_id space_scope row =
    if str_eq row.id parent_node_id then parent_error workspace_id space_scope row else none

-- What the loop does with an ancestor that it read: `rest` is the walk from its parent.
abbrev pub read_ancestor :
    (parent_node_id workspace_id space_scope : String)
    → Option FileNode
    → (Option String → Checked (Unit {0}))
    → Checked (Unit {0})
read_ancestor parent_node_id workspace_id space_scope none rest = refused
read_ancestor parent_node_id workspace_id space_scope (some row) rest =
    if is_some row.archived_at
    then refused
    else elim (ancestor_error parent_node_id workspace_id space_scope row) [
      | some error ↦ rejected error
      | none ↦ rest row.parent_node_id
    ]

-- Enough rounds for any table: one for each row, and one to stop.
abbrev pub rounds : List FileNode → ℕ
rounds rows = suc (length rows)

-- `[nodeId, ...(parentNodeId ? [parentNodeId] : [])]`
abbrev pub initially_locked : String → Option String → List String
initially_locked node_id none = node_id ∷ []
initially_locked node_id (some parent) =
    if str_eq parent "" then node_id ∷ [] else node_id ∷ parent ∷ []

-- The result of a walk, with the row that is moved.
abbrev pub with_source : FileNode → Checked (Unit {0}) → Checked FileNode
with_source source (accepted x) = accepted source
with_source source refused = refused
with_source source (rejected error) = rejected error
with_source source unfinished = unfinished

module _ (locks : RowLocks) (rows : List FileNode) where
  -- `lockFileNodeRows`. The statement orders the ids, which decides only the order of the locks.
  unfoldable pub lock_file_node_rows : List String → Bool
  lock_file_node_rows node_ids =
      let ordered_ids = distinct node_ids in
      if is_empty ordered_ids then true else locks.lock_rows ordered_ids rows == length ordered_ids

  -- The loop over the ancestors, by the rounds left. `forbidden` may not be met, and `locked` are the
  -- ids that are locked already.
  unfoldable pub walk_ancestors :
      (forbidden : Option String) (parent_node_id workspace_id space_scope : String)
      → ℕ
      → (locked visited : List String) → Option String
      → Checked (Unit {0})
  unfolding lock_file_node_rows
  walk_ancestors forbidden parent_node_id workspace_id space_scope zero locked visited ancestor =
      unfinished
  walk_ancestors forbidden parent_node_id workspace_id space_scope (suc fuel) locked visited none =
      accepted tt
  walk_ancestors forbidden parent_node_id workspace_id space_scope (suc fuel) locked visited
        (some id) =
      let rest = read_ancestor parent_node_id workspace_id space_scope (find_node rows id) (
        walk_ancestors forbidden parent_node_id workspace_id space_scope fuel (id ∷ locked)
          (id ∷ visited)) in
      if str_eq id ""
      then accepted tt
      else if is_text forbidden id
      then rejected inside_own_child
      else if contains visited id
      then rejected cyclic_parents
      else if not (contains locked id) && not (lock_file_node_rows (id ∷ []))
      then refused
      else rest

  unfoldable pub lock_and_validate_active_file_node_parent :
      Option String
      → (forbidden : Option String) → (workspace_id space_scope : String) → Checked (Unit {0})
  unfolding walk_ancestors
  lock_and_validate_active_file_node_parent none forbidden workspace_id space_scope = accepted tt
  lock_and_validate_active_file_node_parent (some parent) forbidden workspace_id space_scope =
      if str_eq parent ""
      then accepted tt
      else walk_ancestors forbidden parent workspace_id space_scope (rounds rows) [] []
          (some parent)

  unfoldable pub move_found : String → Option String → Option FileNode → Checked FileNode
  unfolding walk_ancestors
  move_found node_id parent none = refused
  move_found node_id none (some source) =
      if is_some source.archived_at then refused else accepted source
  move_found node_id (some parent) (some source) =
      if is_some source.archived_at
      then refused
      else if str_eq parent ""
      then accepted source
      else with_source source (
          walk_ancestors (some node_id) parent source.workspace_id source.space_scope (rounds rows)
            (node_id ∷ parent ∷ []) [] (some parent))

  unfoldable pub lock_and_validate_file_node_move : String → Option String → Checked FileNode
  unfolding lock_file_node_rows move_found
  lock_and_validate_file_node_move node_id parent =
      if not (lock_file_node_rows (initially_locked node_id parent))
      then refused
      else move_found node_id parent (find_node rows node_id)
