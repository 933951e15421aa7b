-- ===== src/Storage/ObjectKeys/Safety.antt =====
-- Where a key that storage-object-keys.ts accepts for an upload lies.
use icedr.Prelude.{
  ℕ, ◌≡◌, refl, Bool, true, false, not, ◌&&◌, ◌||◌, Option, none, some, List, arith, length, ◌==◌,
  any, same_codes, if◌then◌else◌, codes, some-injective, inl, inr, ◌⊎◌,
}
use icedr.Storage.ObjectKeys.{
  FileObjectKeyPayload, has_unsafe_path_segments, is_safe_object_key, encode_object_key_segment,
  workspace_root, legacy_upload_root, spaces_group, normalize_space_scope,
}
use icedr.Storage.ObjectKeys.Payloads.{
  and_also, and_then, or_else, part_at, offset_parts, is_part_of, from_part, ends_with_name,
  is_named_key_from, is_version_two_key, is_current_key, is_legacy_key, is_legacy_part, has_root,
  has_version_two_parts, has_named_parts, is_upload_object_key_for_payload,
}

and_also-true :
    (a : Bool) (b : Option Bool) → and_also a b ≡ some true → (a ≡ true) × (b ≡ some true)
and_also-true true b h = (refl, h)
and_also-true false b h = cc

and_then-true : (a b : Option Bool) → and_then a b ≡ some true → (a ≡ some true) × (b ≡ some true)
and_then-true none b h = cc
and_then-true (some true) b h = (refl, h)
and_then-true (some false) b h = cc

last_true : (a b : Bool) → some (a && b) ≡ some true → b ≡ true
last_true true b h = some-injective h
last_true false b h = cc

-- What every form of an accepted key has: no segment and no character that leaves its folder, and the
-- folder of the workspace.
abbrev pub LiesIn : FileObjectKeyPayload → Type 0
LiesIn payload =
    (has_unsafe_path_segments payload.object_key ≡ false)
    × (any (λ c. c == 92) payload.object_key ≡ false)
    × ((same_codes (part_at 0 (offset_parts payload.object_key)) workspace_root
          || same_codes (part_at 0 (offset_parts payload.object_key)) legacy_upload_root)
        ≡ true)
    × (is_part_of (part_at 1 (offset_parts payload.object_key))
          (encode_object_key_segment payload.workspace_id)
        ≡ some true)

safe_key :
    (key : List ℕ)
    → is_safe_object_key key ≡ true
    → (has_unsafe_path_segments key ≡ false) × (any (λ c. c == 92) key ≡ false)
unfolding is_safe_object_key
safe_key key h = (ground arith, ground arith)

module _ (payload : FileObjectKeyPayload) where
  parts : List (List ℕ)
  parts = offset_parts payload.object_key

  owner : Option Bool
  owner = is_part_of (part_at 1 parts) (encode_object_key_segment payload.workspace_id)

  lies_in :
      same_codes (part_at 0 parts) workspace_root || same_codes (part_at 0 parts) legacy_upload_root
        ≡ true
      → owner ≡ some true
      → is_safe_object_key payload.object_key ≡ true
      → LiesIn payload
  unfolding parts owner
  lies_in root owned safe =
      let (segments, plain) = safe_key payload.object_key safe in (segments, plain, root, owned)

  version_two-LiesIn : is_version_two_key payload ≡ some true → LiesIn payload
  unfolding is_version_two_key parts owner
  version_two-LiesIn h =
      let safe = is_safe_object_key payload.object_key in
      let last = some (has_version_two_parts payload parts && safe) in
      let (root, rest) = and_also-true (has_root 10 workspace_root parts) (and_then owner last) h in
      let (owned, conditions) = and_then-true owner last rest in
      lies_in (ground (arith, root)) owned
        (last_true (has_version_two_parts payload parts) safe conditions)

  current-LiesIn : is_current_key payload ≡ some true → LiesIn payload
  unfolding is_current_key parts owner
  current-LiesIn h =
      let has_space_scope = length parts == 10 in
      let named_parts = from_part (if has_space_scope then 4 else 2) parts in
      let named = is_named_key_from payload has_space_scope named_parts in
      let spaces =
        not has_space_scope
        || same_codes (part_at 2 parts) spaces_group
          && same_codes (part_at 3 parts) (normalize_space_scope payload.space_scope) in
      let name = is_part_of (part_at 5 named_parts) (encode_object_key_segment payload.file_name) in
      let in_scope =
        has_space_scope
        || same_codes (normalize_space_scope payload.space_scope) (codes "workspace") in
      let safe = is_safe_object_key payload.object_key in
      let (root, rest) =
        and_also-true (has_root 10 workspace_root parts || has_root 8 workspace_root parts)
          (and_then owner (and_also spaces named)) h in
      let (owned, spaced) = and_then-true owner (and_also spaces named) rest in
      let (s, from) = and_also-true spaces named spaced in
      let (n, tail) =
        and_also-true (has_named_parts named_parts) (and_then name (some (in_scope && safe)))
          from in
      let (m, conditions) = and_then-true name (some (in_scope && safe)) tail in
      lies_in (ground (arith, root)) owned (last_true in_scope safe conditions)

  legacy-LiesIn : is_legacy_key payload ≡ some true → LiesIn payload
  unfolding is_legacy_key parts owner
  legacy-LiesIn h =
      let safe = some (is_safe_object_key payload.object_key) in
      let name = ends_with_name (part_at 3 parts) (encode_object_key_segment payload.file_name) in
      let form = is_legacy_part (part_at 3 parts) in
      let scope =
        same_codes (normalize_space_scope payload.space_scope) (codes "workspace")
        && has_root 4 legacy_upload_root parts in
      let (root, rest) =
        and_also-true scope (and_then owner (and_also form (and_then name safe))) h in
      let (owned, formed) = and_then-true owner (and_also form (and_then name safe)) rest in
      let (f, named) = and_also-true form (and_then name safe) formed in
      let (n, conditions) = and_then-true name safe named in
      lies_in (ground (arith, root)) owned (some-injective conditions)

or_else-true : (a b : Option Bool) → or_else a b ≡ some true → (a ≡ some true) ⊎ (b ≡ some true)
or_else-true none b h = cc
or_else-true (some true) b h = inl refl
or_else-true (some false) b h = inr h

-- Whatever key is accepted for an upload, of whichever form: none of its segments is empty, `.` or
-- `..`, it has no backslash, and its first two parts (after the local prefix, if it has that) are a
-- folder of workspaces or uploads and the encoded id of the upload's workspace.
pub upload_key-LiesIn :
    (payload : FileObjectKeyPayload)
    → is_upload_object_key_for_payload payload ≡ some true
    → LiesIn payload
unfolding is_upload_object_key_for_payload
upload_key-LiesIn payload h =
    elim (or_else-true (is_version_two_key payload)
      (or_else (is_current_key payload) (is_legacy_key payload)) h) [
        | inl p ↦ version_two-LiesIn payload p
        | inr rest ↦ elim (or_else-true (is_current_key payload) (is_legacy_key payload) rest) [
          | inl p ↦ current-LiesIn payload p
          | inr p ↦ legacy-LiesIn payload p
        ]
      ]
