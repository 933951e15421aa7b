-- ===== src/Files/Quota.antt =====
-- backend/src/modules/files/file-storage-usage.repository.ts and assertWithinWorkspaceQuota of
-- file-upload-policy.service.ts: how much a space stores, and whether an upload still fits. Sizes and
-- quotas are natural numbers. The counts of files, folders and versions are left out.
pub mod Spaces
pub mod Limits
pub mod Fits
pub mod Stored
mod Examples
use icedr.Prelude.{
  ℕ, ◌+◌, min, String, Bool, true, false, not, ◌&&◌, Option, none, some, List, [], ◌∷◌,
  if◌then◌else◌, ltb, ◌==◌, str_eq, is_text, is_none, is_some, get_or, any,
}
use icedr.Prisma.{Client, Outcome, resolved, thrown, Action}

-- The columns of file_nodes, file_versions, workspaces and users that usage and quota read.
pub record StoredNode : Type 0 where
  pub id : String
  pub workspace_id : String
  pub space_scope : String
  pub owner_user_id : Option String
  pub archived_at : Option ℕ
  pub size_bytes : Option ℕ

pub record StoredVersion : Type 0 where
  pub node_id : String
  pub size_bytes : ℕ

pub record WorkspaceQuota : Type 0 where
  pub id : String
  pub quota_bytes : Option ℕ
  pub default_user_quota_bytes : Option ℕ

pub record UserQuota : Type 0 where
  pub id : String
  pub storage_quota_bytes : Option ℕ

-- The audit event of an upload that is rejected, without the metadata of the request.
pub record QuotaRejection : Type 0 where
  pub workspace_id : String
  pub incoming_bytes : ℕ
  pub quota_bytes : ℕ
  pub scope : String
  pub space_scope : String
  pub used_bytes : ℕ
  pub user_id : Option String

pub record StorageDb : Type 0 where
  pub nodes : List StoredNode
  pub versions : List StoredVersion
  pub workspaces : List WorkspaceQuota
  pub users : List UserQuota
  pub rejections : List QuotaRejection

pub record StorageUsage : Type 0 where
  pub active_bytes : ℕ
  pub trash_bytes : ℕ
  pub version_bytes : ℕ
  pub used_bytes : ℕ
  pub quota_bytes : Option ℕ

pub record UserStorageUsage : Type 0 where
  pub quota_bytes : Option ℕ
  pub used_bytes : ℕ

pub data QuotaError : Type 0 where
  user_required storage_insufficient : QuotaError

abbrev pub in_workspace_space : String → StoredNode → Bool
in_workspace_space workspace_id node =
    str_eq node.workspace_id workspace_id && str_eq node.space_scope "workspace"

abbrev pub in_user_space : String → String → StoredNode → Bool
in_user_space workspace_id user_id node =
    is_text node.owner_user_id user_id
    && str_eq node.space_scope "personal"
    && str_eq node.workspace_id workspace_id

abbrev pub is_of_node : (StoredNode → Bool) → List StoredNode → StoredVersion → Bool
is_of_node in_space nodes version =
    any (λ node. str_eq node.id version.node_id && in_space node) nodes

abbrev pub quota_of_workspace : Option WorkspaceQuota → Option ℕ
quota_of_workspace none = none
quota_of_workspace (some workspace) = workspace.quota_bytes

abbrev pub default_quota_of : Option WorkspaceQuota → Option ℕ
default_quota_of none = none
default_quota_of (some workspace) = workspace.default_user_quota_bytes

abbrev pub quota_of_user : Option UserQuota → Option ℕ
quota_of_user none = none
quota_of_user (some user) = user.storage_quota_bytes

-- `a ?? b` on nullable numbers
abbrev pub or_quota : Option ℕ → Option ℕ → Option ℕ
or_quota none b = b
or_quota (some a) b = some a

module _ (prisma : Client) where
  -- `getStorageUsage` of the space of a workspace.
  unfoldable pub get_storage_usage : String → StorageDb → StorageUsage
  get_storage_usage workspace_id db =
      let in_space = in_workspace_space workspace_id in
      let active =
        prisma.sum_of StoredNode
          (λ node. is_none node.archived_at && is_some node.size_bytes && in_space node)
          (λ node. node.size_bytes) db.nodes in
      let trash =
        prisma.sum_of StoredNode
          (λ node. is_some node.archived_at && is_some node.size_bytes && in_space node)
          (λ node. node.size_bytes) db.nodes in
      let versions =
        prisma.sum_of StoredVersion (is_of_node in_space db.nodes)
          (λ version. some version.size_bytes) db.versions in
      record {
        active_bytes = get_or active 0;
        trash_bytes = get_or trash 0;
        version_bytes = get_or versions 0;
        used_bytes = get_or active 0 + get_or trash 0 + get_or versions 0;
        quota_bytes =
            quota_of_workspace
              (prisma.find_first WorkspaceQuota (λ row. str_eq row.id workspace_id) db.workspaces);
      }

  unfoldable pub get_user_storage_usage : String → String → StorageDb → UserStorageUsage
  get_user_storage_usage workspace_id user_id db =
      let in_space = in_user_space workspace_id user_id in
      let files =
        prisma.sum_of StoredNode (λ node. is_some node.size_bytes && in_space node)
          (λ node. node.size_bytes) db.nodes in
      let versions =
        prisma.sum_of StoredVersion (is_of_node in_space db.nodes)
          (λ version. some version.size_bytes) db.versions in
      record {
        quota_bytes =
            or_quota
              (quota_of_user (prisma.find_first UserQuota (λ row. str_eq row.id user_id) db.users))
              (default_quota_of (
                prisma.find_first WorkspaceQuota (λ row. str_eq row.id workspace_id)
                  db.workspaces));
        used_bytes = get_or files 0 + get_or versions 0;
      }

-- A quota that is set and positive.
abbrev pub positive_quota : Option ℕ → Option ℕ
positive_quota none = none
positive_quota (some quota) = if ltb 0 quota then some quota else none

abbrev pub least_quota : Option ℕ → Option ℕ → Option ℕ
least_quota none b = b
least_quota (some a) none = some a
least_quota (some a) (some b) = some (min a b)

unfoldable pub resolve_effective_quota_bytes : Option ℕ → Option ℕ → Option ℕ
resolve_effective_quota_bytes workspace_quota policy_quota =
    least_quota (positive_quota workspace_quota) (positive_quota policy_quota)

-- Which quota is the one that holds, for the audit event.
abbrev pub quota_scope : String → Option ℕ → ℕ → String
quota_scope owner none quota = "storage"
quota_scope owner (some own_quota) quota = if quota == own_quota then owner else "storage"

-- The quota's test: `none` is an upload that fits.
unfoldable pub exceeded_quota : (used incoming : ℕ) → Option ℕ → Option ℕ
exceeded_quota used incoming none = none
exceeded_quota used incoming (some quota) =
    if ltb 0 quota && ltb quota (used + incoming) then some quota else none

abbrev pub reject_upload : Option QuotaRejection → Action StorageDb QuotaError (Unit {0})
reject_upload none db = (resolved tt, db)
reject_upload (some rejection) db =
    (thrown storage_insufficient, record db { rejections = rejection ∷ db.rejections })

abbrev pub rejection_of :
    (workspace_id owner space_scope : String)
    → (user_id : Option String) → (used incoming : ℕ) → (own_quota exceeded : Option ℕ)
    → Option QuotaRejection
rejection_of workspace_id owner space_scope user_id used incoming own_quota none = none
rejection_of workspace_id owner space_scope user_id used incoming own_quota (some quota) =
    some (record {
      workspace_id = workspace_id;
      incoming_bytes = incoming;
      quota_bytes = quota;
      scope = quota_scope owner own_quota quota;
      space_scope = space_scope;
      used_bytes = used;
      user_id = user_id;
    })

-- A user id that is there and not the empty text.
abbrev pub given_user : Option String → Option String
given_user none = none
given_user (some user) = if str_eq user "" then none else some user

module _ (prisma : Client) where
  unfoldable pub check_personal :
      String → ℕ → Option ℕ → Option String → Action StorageDb QuotaError (Unit {0})
  unfolding get_user_storage_usage resolve_effective_quota_bytes exceeded_quota
  check_personal workspace_id incoming policy_quota none db = (thrown user_required, db)
  check_personal workspace_id incoming policy_quota (some user_id) db =
      let usage = get_user_storage_usage prisma workspace_id user_id db in
      reject_upload
        (rejection_of workspace_id "user" "personal" (some user_id) usage.used_bytes incoming
          usage.quota_bytes
          (exceeded_quota usage.used_bytes incoming
            (resolve_effective_quota_bytes usage.quota_bytes policy_quota)))
        db

  unfoldable pub check_workspace : String → ℕ → Option ℕ → Action StorageDb QuotaError (Unit {0})
  unfolding get_storage_usage resolve_effective_quota_bytes exceeded_quota
  check_workspace workspace_id incoming policy_quota db =
      let usage = get_storage_usage prisma workspace_id db in
      reject_upload
        (rejection_of workspace_id "workspace" "workspace" none usage.used_bytes incoming
          usage.quota_bytes
          (exceeded_quota usage.used_bytes incoming
            (resolve_effective_quota_bytes usage.quota_bytes policy_quota)))
        db

  -- `policy_quota` is the quota of the storage settings.
  unfoldable pub assert_within_workspace_quota :
      String
      → ℕ
      → (is_personal : Bool) → Option String
      → (policy_quota : Option ℕ) → Action StorageDb QuotaError (Unit {0})
  unfolding check_personal check_workspace
  assert_within_workspace_quota workspace_id incoming is_personal owner_user_id policy_quota =
      if is_personal
      then check_personal workspace_id incoming policy_quota (given_user owner_user_id)
      else check_workspace workspace_id incoming policy_quota
