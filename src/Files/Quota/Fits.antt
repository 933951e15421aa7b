-- ===== src/Files/Quota/Fits.antt =====
-- When an upload fits into its space.
use icedr.Prelude.{ℕ, ◌≡◌, refl, true, false, Option, none, some, String, str_eq}
use icedr.Prisma.{Client, IsPrisma, in_memory, by_in_memory, thrown}
use icedr.Files.Quota.{
  StorageDb, user_required, check_personal, check_workspace, assert_within_workspace_quota,
}
use icedr.Files.Quota.Spaces.{
  stored_in, is_shared, is_personal_of, workspace_quota, user_quota, used-eq-stored_in,
  user_used-eq-stored_in, quota-eq-workspace_quota, quota-eq-user_quota,
}
use icedr.Files.Quota.Limits.{SpaceUpload, Answers, exceeded-Answers}

-- An upload to the space that a workspace shares, and one to that of a user in it.
abbrev pub shared_upload : String → ℕ → Option ℕ → StorageDb → SpaceUpload
shared_upload workspace_id incoming policy_quota db = record {
  workspace_id = workspace_id;
  space_scope = "workspace";
  user_id = none;
  own_scope = "workspace";
  own_quota = workspace_quota workspace_id db;
  policy_quota = policy_quota;
  used = stored_in (is_shared workspace_id) db;
  incoming = incoming;
}

abbrev pub personal_upload : String → String → ℕ → Option ℕ → StorageDb → SpaceUpload
personal_upload workspace_id user_id incoming policy_quota db = record {
  workspace_id = workspace_id;
  space_scope = "personal";
  user_id = some user_id;
  own_scope = "user";
  own_quota = user_quota workspace_id user_id db;
  policy_quota = policy_quota;
  used = stored_in (is_personal_of workspace_id user_id) db;
  incoming = incoming;
}

module _ (workspace_id : String) (incoming : ℕ) (policy_quota : Option ℕ) (db : StorageDb) where
  shared-Answers :
      Answers
        (shared_upload workspace_id incoming policy_quota db)
        db
        (check_workspace in_memory workspace_id incoming policy_quota db)
  unfolding check_workspace
  shared-Answers =
      rw (used-eq-stored_in workspace_id db, quota-eq-workspace_quota workspace_id db)
        (exceeded-Answers (shared_upload workspace_id incoming policy_quota db) db)

  personal-Answers :
      (user_id : String)
      → Answers
          (personal_upload workspace_id user_id incoming policy_quota db)
          db
          (check_personal in_memory workspace_id incoming policy_quota (some user_id) db)
  unfolding check_personal
  personal-Answers user_id =
      rw
        (
          user_used-eq-stored_in workspace_id user_id db,
          quota-eq-user_quota workspace_id user_id db,
        )
        (exceeded-Answers (personal_upload workspace_id user_id incoming policy_quota db) db)

no_user :
    (workspace_id : String) (incoming : ℕ) (policy_quota : Option ℕ) (db : StorageDb)
    → check_personal in_memory workspace_id incoming policy_quota none db
      ≡ (thrown user_required, db)
unfolding check_personal
no_user workspace_id incoming policy_quota db = refl

-- An upload is let through, with nothing written, exactly if what the space stores and the upload
-- together are within the space's own quota and that of the storage, of those that are set and not
-- zero. Otherwise it is refused with one audit event that has the upload, what is stored, and the
-- quota that is exceeded: the least of the two, with its scope. The space is the one that the workspace
-- shares, with the quota of the workspace, or that of a user whose id is given, with the quota of the
-- user or else the workspace's default for users; the quota of the workspace does not count for the
-- space of a user. What is stored are the sizes of all nodes of the space, in the trash too, and of
-- all versions of them. Without a user's id an upload to a personal space is refused as such. This is
-- for any client.
pub assert_quota-Answers :
    (c : Client)
    → IsPrisma c
    → (workspace_id user_id : String) (owner : Option String) (incoming : ℕ)
      (policy_quota : Option ℕ) (db : StorageDb)
    → str_eq user_id "" ≡ false
    → Answers
        (shared_upload workspace_id incoming policy_quota db)
        db
        (assert_within_workspace_quota c workspace_id incoming false owner policy_quota db)
      × Answers (personal_upload workspace_id user_id incoming policy_quota db) db (
          assert_within_workspace_quota c workspace_id incoming true (some user_id) policy_quota db)
      × (assert_within_workspace_quota c workspace_id incoming true none policy_quota db
          ≡ (thrown user_required, db))
unfolding assert_within_workspace_quota
assert_quota-Answers c h workspace_id user_id owner incoming policy_quota db u =
    by_in_memory
      (λ k.
        Answers (shared_upload workspace_id incoming policy_quota db) db
          (assert_within_workspace_quota k workspace_id incoming false owner policy_quota db)
        × Answers (personal_upload workspace_id user_id incoming policy_quota db) db (
            assert_within_workspace_quota k workspace_id incoming true (some user_id) policy_quota
              db)
        × (assert_within_workspace_quota k workspace_id incoming true none policy_quota db
            ≡ (thrown user_required, db)))
      h
      (
        shared-Answers workspace_id incoming policy_quota db,
        rw u (personal-Answers workspace_id incoming policy_quota db user_id),
        no_user workspace_id incoming policy_quota db,
      )
