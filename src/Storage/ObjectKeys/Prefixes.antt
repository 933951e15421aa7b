-- ===== src/Storage/ObjectKeys/Prefixes.antt =====
-- The keys of a workspace begin with the prefixes by which storage-object-keys.ts finds them.
use icedr.Prelude.{
  ℕ, ◌≡◌, refl, Bool, true, false, Option, none, some, List, [], ◌∷◌, ◌++◌, arith, codes,
  Bool-cases, inl, inr, any, Option-cases,
}
use icedr.Storage.ObjectKeys.{
  FileObjectKeyInput, join_rest, key_of, is_nonce, require_safe_object_key_segment,
  create_file_object_key, encode_object_key_segment, safe_segment, normalize_space_scope,
  object_group, original_object_type, current_object_key_version, year_text, month_text,
  spaces_group, get_workspace_object_prefixes, starts_with,
}
use icedr.Storage.ObjectKeys.Accepted.{safe_segment-IsGood}

starts_with_append :
    (xs ys zs : List ℕ) → starts_with ys zs ≡ true → starts_with (xs ++ ys) (xs ++ zs) ≡ true
starts_with_append [] ys zs h = h
starts_with_append (x ∷ xs) ys zs h = ground (arith, starts_with_append xs ys zs h)

abbrev parts_after : FileObjectKeyInput → List (List ℕ)
parts_after input =
    normalize_space_scope input.space_scope
    ∷ object_group
    ∷ original_object_type
    ∷ current_object_key_version
    ∷ year_text input.year
    ∷ month_text input.month
    ∷ (input.nonce ++ codes ".blob")
    ∷ []

segment_prefix :
    (segment : List ℕ) (parts : List (List ℕ))
    → starts_with (segment ++ join_rest (spaces_group ∷ parts)) (segment ++ join_rest ([] ∷ []))
      ≡ true
segment_prefix segment parts =
    starts_with_append segment (join_rest (spaces_group ∷ parts)) (join_rest ([] ∷ [])) refl

-- Some prefix of a list of them.
abbrev pub has_prefix : List ℕ → Option (List (List ℕ)) → Bool
has_prefix key none = false
has_prefix key (some prefixes) = any (starts_with key) prefixes

-- A key that is created, if one is.
abbrev pub HasPrefix : FileObjectKeyInput → Option (List ℕ) → Type 0
HasPrefix input none = Unit
HasPrefix input (some key) =
    has_prefix key (get_workspace_object_prefixes input.distributed_storage input.workspace_id)
    ≡ true

key_of-HasPrefix :
    (input : FileObjectKeyInput) (segment : List ℕ)
    → encode_object_key_segment input.workspace_id ≡ some segment
    → HasPrefix input (key_of input segment)
unfolding get_workspace_object_prefixes
key_of-HasPrefix input segment e = elim (Bool-cases (is_nonce input.nonce)) [
  | inr n ↦ rw n tt
  | inl n ↦
      let begins = segment_prefix segment (parts_after input) in
      elim (Bool-cases input.distributed_storage) [
        | inl d ↦ rw (n, d, get_workspace_object_prefixes, e, begins) refl
        | inr d ↦ rw (n, d, get_workspace_object_prefixes, e, begins) refl
      ]
]

-- A key that is created begins with a prefix of its workspace, for the same kind of storage.
pub create-HasPrefix : (input : FileObjectKeyInput) → HasPrefix input (create_file_object_key input)
unfolding create_file_object_key require_safe_object_key_segment
create-HasPrefix input =
    let encoded = encode_object_key_segment input.workspace_id in
    elim (Option-cases (safe_segment encoded)) [
      | inl r ↦ rw (create_file_object_key, r) tt
      | inr (segment, r) ↦
          let (e, good) = safe_segment-IsGood input.workspace_id encoded segment refl r in
          rw (create_file_object_key, r) (key_of-HasPrefix input segment e)
    ]
