-- ===== src/Files/Quota/Stored.antt =====
-- What a space stores once an upload that was let through has become a node of it.
use icedr.Prelude.{
  ℕ, ◌+◌, ◌≡◌, refl, subst, Bool, true, false, not, ◌&&◌, Option, none, some, List, [], ◌∷◌, String,
  arith, str_eq, all, any, get_or,
}
use icedr.Prisma.{Client, IsPrisma, resolved}
use icedr.Files.Quota.{StoredNode, StoredVersion, StorageDb, assert_within_workspace_quota}
use icedr.Files.Quota.Spaces.{
  total_of, stored_in, is_shared, is_personal_of, workspace_quota, user_quota,
}
use icedr.Files.Quota.Limits.{is_within, Answers, fits}
use icedr.Files.Quota.Fits.{shared_upload, personal_upload, assert_quota-Answers}

abbrev pub with_node : StoredNode → StorageDb → StorageDb
with_node node db = record db { nodes = node ∷ db.nodes }

-- A node that no version belongs to yet.
abbrev pub has_no_versions : StoredNode → StorageDb → Bool
has_no_versions node db = all (λ version. not (str_eq node.id version.node_id)) db.versions

same_versions :
    (in_space : StoredNode → Bool) (node : StoredNode) (nodes : List StoredNode)
    (versions : List StoredVersion)
    → all (λ version. not (str_eq node.id version.node_id)) versions ≡ true
    → total_of
        (λ version. any (λ n. str_eq n.id version.node_id && in_space n) (node ∷ nodes))
        (λ version. version.size_bytes)
        versions
      ≡ total_of
          (λ version. any (λ n. str_eq n.id version.node_id && in_space n) nodes)
          (λ version. version.size_bytes)
          versions
same_versions in_space node nodes [] h = refl
same_versions in_space node nodes (v ∷ vs) h =
    let other : str_eq node.id v.node_id ≡ false = ground arith in
    rw (other, same_versions in_space node nodes vs (ground arith)) refl

-- A new file of the size of the upload, in a space.
abbrev pub IsNewFile : (StoredNode → Bool) → ℕ → StoredNode → StorageDb → Type 0
IsNewFile in_space incoming node db =
    (in_space node ≡ true) × (node.size_bytes ≡ some incoming) × (has_no_versions node db ≡ true)

more_stored :
    (in_space : StoredNode → Bool) (incoming : ℕ) (node : StoredNode) (db : StorageDb)
    → IsNewFile in_space incoming node db
    → stored_in in_space (with_node node db) ≡ stored_in in_space db + incoming
more_stored in_space incoming node db (s, z, v) =
    let versions = same_versions in_space node db.nodes db.versions v in
    let nodes : total_of in_space (λ n. get_or n.size_bytes 0) (node ∷ db.nodes)
        ≡ incoming + total_of in_space (λ n. get_or n.size_bytes 0) db.nodes =
      rw (s, z) refl in
    omega (arith, nodes, versions)

-- What a space stores, within its own quota and that of the storage.
abbrev pub IsWithin : ℕ → (own_quota policy_quota : Option ℕ) → Type 0
IsWithin stored own_quota policy_quota =
    (is_within stored own_quota && is_within stored policy_quota) ≡ true

IsWithin-of_more :
    (before incoming after : ℕ) (own policy : Option ℕ)
    → after ≡ before + incoming
    → (is_within (before + incoming) own && is_within (before + incoming) policy) ≡ true
    → IsWithin after own policy
IsWithin-of_more before incoming after own policy e h = rw e h

-- After an upload to the space that a workspace shares is let through and its node is stored, with the
-- size of the upload and without versions, and nothing else in between, the sizes of all nodes of the
-- space, in the trash too, and of all versions of them are together within the workspace's quota and
-- that of the storage, of those that are set and not zero. This is for any client.
pub accepted-WorkspaceIsWithin :
    (c : Client)
    → IsPrisma c
    → (workspace_id : String) (incoming : ℕ) (owner : Option String) (policy_quota : Option ℕ)
      (node : StoredNode) (db : StorageDb)
    → IsNewFile (is_shared workspace_id) incoming node db
    → assert_within_workspace_quota c workspace_id incoming false owner policy_quota db
      ≡ (resolved tt, db)
    → IsWithin
        (stored_in (is_shared workspace_id) (with_node node db))
        (workspace_quota workspace_id (with_node node db))
        policy_quota
accepted-WorkspaceIsWithin c h workspace_id incoming owner policy_quota node db n e =
    let upload = shared_upload workspace_id incoming policy_quota db in
    let answers =
      (assert_quota-Answers c h workspace_id "u" owner incoming policy_quota db refl).0 in
    let enough : fits upload ≡ true = (subst (Answers upload db) e answers).0 in
    IsWithin-of_more upload.used incoming (stored_in (is_shared workspace_id) (with_node node db))
      upload.own_quota policy_quota (more_stored (is_shared workspace_id) incoming node db n) enough

-- The same of the space of a user, whose own quota is the user's or else the workspace's default.
pub accepted-UserIsWithin :
    (c : Client)
    → IsPrisma c
    → (workspace_id user_id : String) (incoming : ℕ) (policy_quota : Option ℕ) (node : StoredNode)
      (db : StorageDb)
    → str_eq user_id "" ≡ false
    → IsNewFile (is_personal_of workspace_id user_id) incoming node db
    → assert_within_workspace_quota c workspace_id incoming true (some user_id) policy_quota db
      ≡ (resolved tt, db)
    → IsWithin
        (stored_in (is_personal_of workspace_id user_id) (with_node node db))
        (user_quota workspace_id user_id (with_node node db))
        policy_quota
accepted-UserIsWithin c h workspace_id user_id incoming policy_quota node db u n e =
    let upload = personal_upload workspace_id user_id incoming policy_quota db in
    let answers =
      (assert_quota-Answers c h workspace_id user_id none incoming policy_quota db u).1 in
    let enough : fits upload ≡ true = (subst (Answers upload db) e answers).0 in
    IsWithin-of_more upload.used incoming
      (stored_in (is_personal_of workspace_id user_id) (with_node node db)) upload.own_quota
      policy_quota (more_stored (is_personal_of workspace_id user_id) incoming node db n) enough
