-- ===== src/Storage/ObjectKeys/Payloads.antt =====
-- Which keys storage-object-keys.ts accepts for an upload: those of the present form, of the form
-- with the file name, with a space or without one, and of the oldest form. `none` is an exception.
use icedr.Prelude.{
  ℕ, zero, suc, Bool, true, false, not, ◌&&◌, ◌||◌, Option, none, some, List, [], ◌∷◌,
  if◌then◌else◌, leb, ◌==◌, length, all, is_empty, is_digit, codes, same_codes,
}
use icedr.Storage.ByteRange.{span_digits}
use icedr.Storage.ObjectKeys.{
  FileObjectKeyPayload, parts_of, split_key, local_prefix, workspace_root, spaces_group,
  object_group, original_object_type, current_object_key_version, legacy_upload_root,
  normalize_space_scope, is_nonce, is_safe_object_key, encode_object_key_segment,
}

-- `a && b` and `a || b` where an operand may throw.
abbrev pub and_also : Bool → Option Bool → Option Bool
and_also true b = b
and_also false b = some false

abbrev pub and_then : Option Bool → Option Bool → Option Bool
and_then none b = none
and_then (some a) b = and_also a b

abbrev pub or_else : Option Bool → Option Bool → Option Bool
or_else none b = none
or_else (some true) b = some true
or_else (some false) b = b

abbrev pub part_at : ℕ → List (List ℕ) → List ℕ
part_at n [] = []
part_at zero (part ∷ parts) = part
part_at (suc n) (part ∷ parts) = part_at n parts

-- The parts from the offset on, which skips the local prefix.
abbrev pub without_prefix : List (List ℕ) → List (List ℕ)
without_prefix [] = []
without_prefix (part ∷ parts) = if same_codes part local_prefix then parts else part ∷ parts

unfoldable pub offset_parts : List ℕ → List (List ℕ)
unfolding split_key
offset_parts key = without_prefix (parts_of key)

-- A part that is the encoding of a value.
abbrev pub is_part_of : List ℕ → Option (List ℕ) → Option Bool
is_part_of part none = none
is_part_of part (some encoded) = some (same_codes part encoded)

-- The regular expression `^\d{4}$`.
abbrev pub is_year_part : List ℕ → Bool
is_year_part t = length t == 4 && all is_digit t

-- The regular expression `^(0[1-9]|1[0-2])$`.
abbrev pub is_month_part : List ℕ → Bool
is_month_part (c ∷ d ∷ []) =
    c == b'0' && leb b'1' d && leb d b'9' || c == b'1' && leb b'0' d && leb d b'2'
is_month_part _ = false

abbrev pub take : ℕ → List ℕ → List ℕ
take zero t = []
take (suc n) [] = []
take (suc n) (c ∷ cs) = c ∷ take n cs

abbrev pub drop : ℕ → List ℕ → List ℕ
drop zero t = t
drop (suc n) [] = []
drop (suc n) (c ∷ cs) = drop n cs

-- The regular expression `^[A-Za-z0-9_-]{16}\.blob$`.
abbrev pub is_blob_part : List ℕ → Bool
is_blob_part t = is_nonce (take 16 t) && same_codes (drop 16 t) (codes ".blob")

-- `-` and then at least one character, none a line end.
abbrev pub is_dash_text : List ℕ → Bool
is_dash_text [] = false
is_dash_text (c ∷ cs) =
    c == b'-'
    && not (is_empty cs)
    && all (λ d. not (d == 10) && not (d == 13) && not (d == 8232) && not (d == 8233)) cs

abbrev pub is_dash_nonce : List ℕ → Bool
is_dash_nonce [] = false
is_dash_nonce (c ∷ cs) = c == b'-' && is_nonce (take 16 cs) && is_dash_text (drop 16 cs)

-- The regular expression `^\d{10,}-[A-Za-z0-9_-]{16}-.+$`.
unfoldable pub is_legacy_part : List ℕ → Bool
unfolding span_digits
is_legacy_part t =
    let (digits, rest) = span_digits t in leb 10 (length digits) && is_dash_nonce rest

abbrev pub ends_with_text : List ℕ → List ℕ → Bool
ends_with_text [] suffix = same_codes [] suffix
ends_with_text (c ∷ cs) suffix = same_codes (c ∷ cs) suffix || ends_with_text cs suffix

abbrev pub ends_with_name : List ℕ → Option (List ℕ) → Option Bool
ends_with_name part none = none
ends_with_name part (some name) = some (ends_with_text part (b'-' ∷ name))

abbrev pub has_version_two_parts : FileObjectKeyPayload → List (List ℕ) → Bool
has_version_two_parts payload parts =
    same_codes (part_at 2 parts) spaces_group
    && same_codes (part_at 3 parts) (normalize_space_scope payload.space_scope)
    && same_codes (part_at 4 parts) object_group
    && same_codes (part_at 5 parts) original_object_type
    && same_codes (part_at 6 parts) current_object_key_version
    && is_year_part (part_at 7 parts)
    && is_month_part (part_at 8 parts)
    && is_blob_part (part_at 9 parts)

-- The number of the parts, and the root.
abbrev pub has_root : ℕ → List ℕ → List (List ℕ) → Bool
has_root count root parts = length parts == count && same_codes (part_at 0 parts) root

unfoldable pub is_version_two_key : FileObjectKeyPayload → Option Bool
unfolding offset_parts encode_object_key_segment is_safe_object_key
is_version_two_key payload =
    let parts = offset_parts payload.object_key in
    and_also (has_root 10 workspace_root parts) (
      and_then (is_part_of (part_at 1 parts) (encode_object_key_segment payload.workspace_id))
        (some (has_version_two_parts payload parts && is_safe_object_key payload.object_key)))

abbrev pub has_named_parts : List (List ℕ) → Bool
has_named_parts parts =
    same_codes (part_at 0 parts) object_group
    && same_codes (part_at 1 parts) original_object_type
    && is_year_part (part_at 2 parts)
    && is_month_part (part_at 3 parts)
    && is_nonce (part_at 4 parts)

-- The parts from the group of objects on, with the space checked if there is one.
abbrev pub is_named_key_from : FileObjectKeyPayload → Bool → List (List ℕ) → Option Bool
is_named_key_from payload has_space_scope parts = and_also (has_named_parts parts) (
    and_then (is_part_of (part_at 5 parts) (encode_object_key_segment payload.file_name)) (
      some (
        (has_space_scope
          || same_codes (normalize_space_scope payload.space_scope) (codes "workspace"))
        && is_safe_object_key payload.object_key)))

abbrev pub from_part : ℕ → List (List ℕ) → List (List ℕ)
from_part zero parts = parts
from_part (suc n) [] = []
from_part (suc n) (part ∷ parts) = from_part n parts

unfoldable pub is_current_key : FileObjectKeyPayload → Option Bool
unfolding offset_parts encode_object_key_segment is_safe_object_key
is_current_key payload =
    let parts = offset_parts payload.object_key in
    let has_space_scope = length parts == 10 in
    and_also (has_root 10 workspace_root parts || has_root 8 workspace_root parts) (
      and_then (is_part_of (part_at 1 parts) (encode_object_key_segment payload.workspace_id)) (
        and_also
          (not has_space_scope
            || same_codes (part_at 2 parts) spaces_group
              && same_codes (part_at 3 parts) (normalize_space_scope payload.space_scope))
          (is_named_key_from payload has_space_scope
            (from_part (if has_space_scope then 4 else 2) parts))))

unfoldable pub is_legacy_key : FileObjectKeyPayload → Option Bool
unfolding offset_parts encode_object_key_segment is_safe_object_key is_legacy_part
is_legacy_key payload =
    let parts = offset_parts payload.object_key in
    and_also
      (same_codes (normalize_space_scope payload.space_scope) (codes "workspace")
        && has_root 4 legacy_upload_root parts)
      (and_then (is_part_of (part_at 1 parts) (encode_object_key_segment payload.workspace_id)) (
        and_also (is_legacy_part (part_at 3 parts)) (
          and_then (ends_with_name (part_at 3 parts) (encode_object_key_segment payload.file_name))
            (some (is_safe_object_key payload.object_key)))))

unfoldable pub is_upload_object_key_for_payload : FileObjectKeyPayload → Option Bool
unfolding is_version_two_key is_current_key is_legacy_key
is_upload_object_key_for_payload payload =
    or_else (is_version_two_key payload) (or_else (is_current_key payload) (is_legacy_key payload))
