-- ===== src/Files/Quota/Spaces.antt =====
-- How much a space stores, counted row by row, and its quota: what `getStorageUsage` and
-- `getUserStorageUsage` of file-storage-usage.repository.ts are to answer.
use icedr.Prelude.{
  ℕ, ◌+◌, ◌≡◌, refl, Bool, ◌&&◌, Option, none, some, List, [], ◌∷◌, String, arith, if◌then◌else◌,
  is_some, is_none, get_or, str_eq, is_text, any, find?,
}
use icedr.Prisma.{in_memory, sum_where, add_value}
use icedr.Files.Quota.{
  StoredNode, StoredVersion, StorageDb, WorkspaceQuota, UserQuota, quota_of_user, default_quota_of,
  quota_of_workspace, or_quota, get_storage_usage, get_user_storage_usage,
}

-- The sizes of the rows that pass a test.
abbrev pub total_of : {Row : Type 0} → (Row → Bool) → (Row → ℕ) → List Row → ℕ
total_of test size [] = 0
total_of test size (row ∷ rows) = (if test row then size row else 0) + total_of test size rows

-- All nodes of a space, with those in the trash, and all versions of them.
abbrev pub stored_in : (StoredNode → Bool) → StorageDb → ℕ
stored_in in_space db =
    total_of in_space (λ node. get_or node.size_bytes 0) db.nodes
    + total_of (λ version. any (λ node. str_eq node.id version.node_id && in_space node) db.nodes)
        (λ version. version.size_bytes) db.versions

abbrev pub is_shared : String → StoredNode → Bool
is_shared workspace_id node =
    str_eq node.workspace_id workspace_id && str_eq node.space_scope "workspace"

abbrev pub is_personal_of : String → String → StoredNode → Bool
is_personal_of workspace_id user_id node =
    is_text node.owner_user_id user_id
    && str_eq node.space_scope "personal"
    && str_eq node.workspace_id workspace_id

abbrev pub workspace_quota : String → StorageDb → Option ℕ
workspace_quota workspace_id db = elim (find? (λ row. str_eq row.id workspace_id) db.workspaces) [
  | none ↦ none
  | some workspace ↦ workspace.quota_bytes
]

-- A user's own quota, or else the default of the workspace.
abbrev pub first_quota : Option UserQuota → Option WorkspaceQuota → Option ℕ
first_quota none none = none
first_quota none (some workspace) = workspace.default_user_quota_bytes
first_quota (some user) none = user.storage_quota_bytes
first_quota (some user) (some workspace) = elim user.storage_quota_bytes [
  | none ↦ workspace.default_user_quota_bytes
  | some n ↦ some n
]

abbrev pub user_quota : String → String → StorageDb → Option ℕ
user_quota workspace_id user_id db =
    first_quota (find? (λ row. str_eq row.id user_id) db.users)
      (find? (λ row. str_eq row.id workspace_id) db.workspaces)

get_or-add_value : (o sum : Option ℕ) → get_or (add_value o sum) 0 ≡ get_or o 0 + get_or sum 0
get_or-add_value none sum = ground arith
get_or-add_value (some n) none = ground arith
get_or-add_value (some n) (some m) = refl

-- The sum that the database answers, none if no row has a value.
sum_where-total_of :
    {Row : Type 0} (test : Row → Bool) (value : Row → Option ℕ) (rows : List Row)
    → get_or (sum_where test value rows) 0 ≡ total_of test (λ row. get_or (value row) 0) rows
sum_where-total_of test value [] = refl
sum_where-total_of test value (x ∷ xs) =
    ground (
      arith,
      sum_where-total_of test value xs,
      get_or-add_value (value x) (sum_where test value xs),
    )

-- Files that are not in the trash and files that are, folders left out, are all nodes.
active_and_trash :
    (in_space : StoredNode → Bool) (nodes : List StoredNode)
    → total_of
          (λ node. is_none node.archived_at && is_some node.size_bytes && in_space node)
          (λ node. get_or node.size_bytes 0)
          nodes
        + total_of
            (λ node. is_some node.archived_at && is_some node.size_bytes && in_space node)
            (λ node. get_or node.size_bytes 0)
            nodes
      ≡ total_of in_space (λ node. get_or node.size_bytes 0) nodes
active_and_trash in_space [] = refl
active_and_trash in_space (x ∷ xs) = ground (arith, active_and_trash in_space xs)

files_of :
    (in_space : StoredNode → Bool) (nodes : List StoredNode)
    → total_of
        (λ node. is_some node.size_bytes && in_space node)
        (λ node. get_or node.size_bytes 0)
        nodes
      ≡ total_of in_space (λ node. get_or node.size_bytes 0) nodes
files_of in_space [] = refl
files_of in_space (x ∷ xs) = ground (arith, files_of in_space xs)

pub used-eq-stored_in :
    (workspace_id : String) (db : StorageDb)
    → (get_storage_usage in_memory workspace_id db).used_bytes
      ≡ stored_in (is_shared workspace_id) db
unfolding get_storage_usage
used-eq-stored_in workspace_id db =
    let in_space = is_shared workspace_id in
    let size = λ (node : StoredNode). node.size_bytes in
    let active =
      sum_where-total_of
        (λ node. is_none node.archived_at && is_some node.size_bytes && in_space node) size
        db.nodes in
    let trash =
      sum_where-total_of
        (λ node. is_some node.archived_at && is_some node.size_bytes && in_space node) size
        db.nodes in
    let versions =
      sum_where-total_of {Row = StoredVersion}
        (λ version. any (λ node. str_eq node.id version.node_id && in_space node) db.nodes)
        (λ version. some version.size_bytes) db.versions in
    omega (arith, active, trash, versions, active_and_trash in_space db.nodes)

pub user_used-eq-stored_in :
    (workspace_id user_id : String) (db : StorageDb)
    → (get_user_storage_usage in_memory workspace_id user_id db).used_bytes
      ≡ stored_in (is_personal_of workspace_id user_id) db
unfolding get_user_storage_usage
user_used-eq-stored_in workspace_id user_id db =
    let in_space = is_personal_of workspace_id user_id in
    let files =
      sum_where-total_of {Row = StoredNode} (λ node. is_some node.size_bytes && in_space node)
        (λ node. node.size_bytes) db.nodes in
    let versions =
      sum_where-total_of {Row = StoredVersion}
        (λ version. any (λ node. str_eq node.id version.node_id && in_space node) db.nodes)
        (λ version. some version.size_bytes) db.versions in
    omega (arith, files, versions, files_of in_space db.nodes)

own-eq-workspace_quota :
    (o : Option WorkspaceQuota)
    → quota_of_workspace o ≡ elim o [ none ↦ none | some workspace ↦ workspace.quota_bytes ]
own-eq-workspace_quota none = refl
own-eq-workspace_quota (some workspace) = refl

pub quota-eq-workspace_quota :
    (workspace_id : String) (db : StorageDb)
    → (get_storage_usage in_memory workspace_id db).quota_bytes ≡ workspace_quota workspace_id db
unfolding get_storage_usage
quota-eq-workspace_quota workspace_id db =
    own-eq-workspace_quota (find? (λ row. str_eq row.id workspace_id) db.workspaces)

own-eq-first_quota :
    (user : Option UserQuota) (workspace : Option WorkspaceQuota)
    → or_quota (quota_of_user user) (default_quota_of workspace) ≡ first_quota user workspace
own-eq-first_quota none none = refl
own-eq-first_quota none (some workspace) = refl
own-eq-first_quota (some user) none = ground arith
own-eq-first_quota (some user) (some workspace) = ground arith

pub quota-eq-user_quota :
    (workspace_id user_id : String) (db : StorageDb)
    → (get_user_storage_usage in_memory workspace_id user_id db).quota_bytes
      ≡ user_quota workspace_id user_id db
unfolding get_user_storage_usage
quota-eq-user_quota workspace_id user_id db =
    own-eq-first_quota (find? (λ row. str_eq row.id user_id) db.users)
      (find? (λ row. str_eq row.id workspace_id) db.workspaces)
