-- ===== src/Files/Quota/Examples.antt =====
-- Uploads to spaces with quotas on a concrete table.
use icedr.Prelude.{ℕ, ◌≡◌, refl, true, false, Option, none, some, [], ◌∷◌, String}
use icedr.Prisma.{in_memory, in_memory-IsPrisma, thrown}
use icedr.Files.Quota.{
  StoredNode, StorageDb, assert_within_workspace_quota, user_required, storage_insufficient,
}
use icedr.Files.Quota.Spaces.{stored_in, is_shared, workspace_quota}
use icedr.Files.Quota.Limits.{Answers}
use icedr.Files.Quota.Fits.{shared_upload, personal_upload, assert_quota-Answers}
use icedr.Files.Quota.Stored.{with_node, IsWithin, accepted-WorkspaceIsWithin}

abbrev file : String → String → Option String → ℕ → StoredNode
file id space owner size = record {
  id = id;
  workspace_id = "w";
  space_scope = space;
  owner_user_id = owner;
  archived_at = none;
  size_bytes = some size;
}

-- A file of 60 bytes in the trash with a version of 20, and a user's file of 10 bytes.
abbrev space_db : StorageDb
space_db = record {
  nodes =
      record (file "a" "workspace" none 60) { archived_at = some 5 }
      ∷ file "b" "personal" (some "u") 10
      ∷ [];
  versions = record { node_id = "a"; size_bytes = 20 } ∷ [];
  workspaces = record { id = "w"; quota_bytes = some 100; default_user_quota_bytes = some 30 } ∷ [];
  users = record { id = "u"; storage_quota_bytes = none } ∷ [];
  rejections = [];
}

assert_quota-Answers_example :
    Answers
      (shared_upload "w" 21 none space_db)
      space_db
      (assert_within_workspace_quota in_memory "w" 21 false none none space_db)
    × Answers
        (personal_upload "w" "u" 21 none space_db)
        space_db
        (assert_within_workspace_quota in_memory "w" 21 true (some "u") none space_db)
    × (assert_within_workspace_quota in_memory "w" 21 true none none space_db
        ≡ (thrown user_required, space_db))
assert_quota-Answers_example =
    assert_quota-Answers in_memory in_memory-IsPrisma "w" "u" none 21 none space_db refl

-- One byte too many.
refused_example :
    (assert_within_workspace_quota in_memory "w" 21 false none none space_db).0
    ≡ thrown storage_insufficient
unfolding assert_within_workspace_quota
refused_example = refl

accepted-WorkspaceIsWithin_example :
    IsWithin
      (stored_in (is_shared "w") (with_node (file "c" "workspace" none 20) space_db))
      (workspace_quota "w" (with_node (file "c" "workspace" none 20) space_db))
      (some 0)
unfolding assert_within_workspace_quota
accepted-WorkspaceIsWithin_example =
    accepted-WorkspaceIsWithin in_memory in_memory-IsPrisma "w" 20 none (some 0)
      (file "c" "workspace" none 20) space_db (refl, refl, refl) refl
