-- ===== src/Storage/ObjectKeys.antt =====
-- backend/src/modules/storage/storage-object-keys.ts: the keys under which objects are stored. Texts
-- are the lists of their code units; a date is its year, a natural number, and its month from 1; the
-- nonce is an argument. `none` is an exception.
pub mod Encoding
pub mod Payloads
pub mod Encoded
pub mod Splitting
pub mod Accepted
pub mod Safety
pub mod Prefixes
mod Examples
use icedr.Prelude.{
  ℕ, zero, suc, ◌+◌, ◌-◌, ◌*◌, ◌/◌, ◌%◌, Bool, true, false, not, ◌&&◌, ◌||◌, Option, none, some,
  List, [], ◌∷◌, ◌++◌, if◌then◌else◌, leb, ltb, ◌==◌, length, all, any, is_empty, is_digit, codes,
  same_codes, trim,
}
use icedr.Storage.ObjectKeys.Encoding.{encode_uri_component}

abbrev pub local_prefix : List ℕ
local_prefix = codes "local"

abbrev pub workspace_root : List ℕ
workspace_root = codes "workspaces"

abbrev pub spaces_group : List ℕ
spaces_group = codes "spaces"

abbrev pub object_group : List ℕ
object_group = codes "objects"

abbrev pub original_object_type : List ℕ
original_object_type = codes "original"

abbrev pub current_object_key_version : List ℕ
current_object_key_version = codes "v2"

abbrev pub legacy_upload_root : List ℕ
legacy_upload_root = codes "uploads"

pub record FileObjectKeyInput : Type 0 where
  pub distributed_storage : Bool
  pub year : ℕ
  pub month : ℕ
  pub nonce : List ℕ
  pub space_scope : Option (List ℕ)
  pub workspace_id : List ℕ

pub record FileObjectKeyPayload : Type 0 where
  pub file_name : List ℕ
  pub object_key : List ℕ
  pub space_scope : Option (List ℕ)
  pub workspace_id : List ℕ

-- `key.split('/')`: the first part and the others.
unfoldable pub split_key : List ℕ → List ℕ × List (List ℕ)
split_key [] = ([], [])
split_key (c ∷ cs) =
    let (part, parts) = split_key cs in if c == b'/' then ([], part ∷ parts) else (c ∷ part, parts)

abbrev pub parts_of : List ℕ → List (List ℕ)
parts_of key = let (part, parts) = split_key key in part ∷ parts

-- `parts.join('/')`, from the second part on
abbrev pub join_rest : List (List ℕ) → List ℕ
join_rest [] = []
join_rest (part ∷ parts) = b'/' ∷ (part ++ join_rest parts)

abbrev pub join_parts : List (List ℕ) → List ℕ
join_parts [] = []
join_parts (part ∷ parts) = part ++ join_rest parts

abbrev pub is_unsafe_segment : List ℕ → Bool
is_unsafe_segment part =
    same_codes part (codes ".") || same_codes part (codes "..") || is_empty part

unfoldable pub has_unsafe_path_segments : List ℕ → Bool
unfolding split_key
has_unsafe_path_segments key = any is_unsafe_segment (parts_of key)

unfoldable pub is_safe_object_key : List ℕ → Bool
unfolding has_unsafe_path_segments
is_safe_object_key key = not (any (λ c. c == 92) key) && not (has_unsafe_path_segments key)

unfoldable pub encode_object_key_segment : List ℕ → Option (List ℕ)
unfolding trim encode_uri_component
encode_object_key_segment value =
    if is_empty (trim value) then some [] else encode_uri_component (trim value)

abbrev pub safe_segment : Option (List ℕ) → Option (List ℕ)
safe_segment none = none
safe_segment (some encoded) =
    if is_empty encoded || same_codes encoded (codes ".") || same_codes encoded (codes "..")
    then none
    else some encoded

unfoldable pub require_safe_object_key_segment : List ℕ → Option (List ℕ)
unfolding encode_object_key_segment
require_safe_object_key_segment value = safe_segment (encode_object_key_segment value)

abbrev pub normalize_space_scope : Option (List ℕ) → List ℕ
normalize_space_scope none = codes "workspace"
normalize_space_scope (some value) =
    if same_codes value (codes "personal") then codes "personal" else codes "workspace"

-- `String(n)`, of a number of at most as many digits.
abbrev pub decimal : (digits n : ℕ) → List ℕ
decimal zero n = []
decimal (suc digits) n =
    let rest = decimal digits (n / 10) in
    if ltb n 10 then (b'0' + n) ∷ [] else rest ++ (b'0' + n % 10) ∷ []

-- The years of dates end at 275760.
abbrev pub year_text : ℕ → List ℕ
year_text year = decimal 7 year

-- `String(month).padStart(2, '0')`
abbrev pub month_text : ℕ → List ℕ
month_text month = if ltb month 10 then b'0' ∷ decimal 2 month else decimal 2 month

-- The class `[A-Za-z0-9_-]`.
abbrev pub is_key_char : ℕ → Bool
is_key_char c =
    leb b'A' c && leb c b'Z' || leb b'a' c && leb c b'z' || is_digit c || c == b'_' || c == b'-'

-- The regular expression `^[A-Za-z0-9_-]{16}$`.
abbrev pub is_nonce : List ℕ → Bool
is_nonce t = length t == 16 && all is_key_char t

abbrev pub key_parts : FileObjectKeyInput → List ℕ → List (List ℕ)
key_parts input segment =
    workspace_root
    ∷ segment
    ∷ spaces_group
    ∷ normalize_space_scope input.space_scope
    ∷ object_group
    ∷ original_object_type
    ∷ current_object_key_version
    ∷ year_text input.year
    ∷ month_text input.month
    ∷ (input.nonce ++ codes ".blob")
    ∷ []

abbrev pub key_of : FileObjectKeyInput → List ℕ → Option (List ℕ)
key_of input segment =
    if not (is_nonce input.nonce)
    then none
    else if input.distributed_storage
    then some (join_parts (key_parts input segment))
    else some (join_parts (local_prefix ∷ key_parts input segment))

abbrev pub key_of_segment : FileObjectKeyInput → Option (List ℕ) → Option (List ℕ)
key_of_segment input none = none
key_of_segment input (some segment) = key_of input segment

unfoldable pub create_file_object_key : FileObjectKeyInput → Option (List ℕ)
unfolding require_safe_object_key_segment
create_file_object_key input =
    key_of_segment input (require_safe_object_key_segment input.workspace_id)

-- The prefixes of the keys of a workspace, of the present forms and of the oldest.
abbrev pub workspace_prefixes : Bool → List ℕ → List (List ℕ)
workspace_prefixes true segment =
    join_parts (workspace_root ∷ segment ∷ [] ∷ [])
    ∷ join_parts (legacy_upload_root ∷ segment ∷ [] ∷ [])
    ∷ []
workspace_prefixes false segment =
    join_parts (local_prefix ∷ workspace_root ∷ segment ∷ [] ∷ [])
    ∷ join_parts (local_prefix ∷ legacy_upload_root ∷ segment ∷ [] ∷ [])
    ∷ []

abbrev pub prefixes_of_segment : Bool → Option (List ℕ) → Option (List (List ℕ))
prefixes_of_segment distributed_storage none = none
prefixes_of_segment distributed_storage (some segment) =
    some (workspace_prefixes distributed_storage segment)

unfoldable pub get_workspace_object_prefixes : Bool → List ℕ → Option (List (List ℕ))
unfolding encode_object_key_segment
get_workspace_object_prefixes distributed_storage workspace_id =
    prefixes_of_segment distributed_storage (encode_object_key_segment workspace_id)

abbrev pub starts_with : List ℕ → List ℕ → Bool
starts_with t [] = true
starts_with [] (c ∷ cs) = false
starts_with (c ∷ cs) (d ∷ ds) = c == d && starts_with cs ds

unfoldable pub is_local_object_key : List ℕ → Bool
unfolding is_safe_object_key
is_local_object_key key = starts_with key (codes "local/") && is_safe_object_key key
