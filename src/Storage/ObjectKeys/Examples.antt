-- ===== src/Storage/ObjectKeys/Examples.antt =====
-- Keys that storage-object-keys.ts creates and accepts.
use icedr.Prelude.{ℕ, ◌≡◌, refl, false, none, some, List, codes, arith, ◌++◌}
use icedr.Storage.ObjectKeys.{
  FileObjectKeyInput, FileObjectKeyPayload, create_file_object_key, require_safe_object_key_segment,
}
use icedr.Storage.ObjectKeys.Payloads.{is_upload_object_key_for_payload}
use icedr.Storage.ObjectKeys.Accepted.{IsAccepted, create-IsAccepted}
use icedr.Storage.ObjectKeys.Safety.{LiesIn, upload_key-LiesIn}

abbrev may_input : FileObjectKeyInput
may_input = record {
  distributed_storage = false;
  year = 2024;
  month = 5;
  nonce = codes "abcdefgh_-012345";
  space_scope = none;
  workspace_id = codes "team a";
}

abbrev may_key : List ℕ
may_key =
    codes "local/workspaces/team%20a/spaces/workspace/objects/original/v2/2024/05/"
    ++ codes "abcdefgh_-012345.blob"

created_example : create_file_object_key may_input ≡ some may_key
unfolding create_file_object_key
created_example = refl

create-IsAccepted_example :
    IsAccepted may_input (codes "notes.txt") (create_file_object_key may_input)
unfolding require_safe_object_key_segment
create-IsAccepted_example =
    create-IsAccepted may_input (codes "notes.txt") (codes "team%20a") (omega arith) (omega arith)
      (omega arith) (omega arith) refl refl

-- A key of the oldest form.
abbrev old_upload : FileObjectKeyPayload
old_upload = record {
  file_name = codes "a b.txt";
  object_key = codes "uploads/w1/x/1700000000-abcdefgh_-012345-a%20b.txt";
  space_scope = none;
  workspace_id = codes "w1";
}

upload_key-LiesIn_example : LiesIn old_upload
unfolding is_upload_object_key_for_payload
upload_key-LiesIn_example = upload_key-LiesIn old_upload refl

-- A key that leaves its folder is refused.
refused_example :
    is_upload_object_key_for_payload (record old_upload {
      object_key = codes "uploads/w1/../1700000000-abcdefgh_-012345-a%20b.txt";
    })
    ≡ some false
unfolding is_upload_object_key_for_payload
refused_example = refl
