-- ===== src/Storage/ObjectKeys/Accepted.antt =====
-- A key that storage-object-keys.ts creates is accepted for the upload that it was created for.
use icedr.Prelude.{
  ℕ, zero, suc, ◌+◌, ◌/◌, ◌%◌, ◌≤◌, ◌≡◌, refl, Bool, true, false, ◌||◌, Option, none, some, List,
  [], ◌∷◌, ◌++◌, ltb, ◌==◌, all, any, arith, length, is_empty, same_codes, ap, subst, codes,
  Bool-cases, inl, inr, trim, some-injective, ◌∙◌,
}
use icedr.Storage.ObjectKeys.{
  FileObjectKeyInput, FileObjectKeyPayload, join_parts, key_parts, key_of, local_prefix,
  workspace_root, spaces_group, object_group, original_object_type, current_object_key_version,
  normalize_space_scope, year_text, month_text, is_key_char, is_nonce, is_unsafe_segment,
  is_safe_object_key, encode_object_key_segment, safe_segment, require_safe_object_key_segment,
  create_file_object_key,
}
use icedr.Storage.ObjectKeys.Encoded.{encode-plain}
use icedr.Storage.ObjectKeys.Splitting.{is_plain_text, parts_of-join, join-safe}
use icedr.Storage.ObjectKeys.Payloads.{
  offset_parts, is_year_part, is_month_part, is_blob_part, take, drop, without_prefix,
  is_version_two_key, is_upload_object_key_for_payload,
}

same_codes_refl : (t : List ℕ) → same_codes t t ≡ true
same_codes_refl [] = refl
same_codes_refl (c ∷ cs) = ground (arith, same_codes_refl cs)

-- A part that is plain and none of the unsafe ones.
pub IsGood : List ℕ → Type 0
IsGood part = (is_plain_text part ≡ true) × (is_unsafe_segment part ≡ false)

year-digits :
    (y : ℕ)
    → 1000 ≤ y
    → y ≤ 9999
    → year_text y
      ≡ (b'0' + y / 10 / 10 / 10)
        ∷ (b'0' + y / 10 / 10 % 10)
        ∷ (b'0' + y / 10 % 10)
        ∷ (b'0' + y % 10)
        ∷ []
year-digits y l u =
    let a : ltb y 10 ≡ false = ground arith in
    let b : ltb (y / 10) 10 ≡ false = ground arith in
    let c : ltb (y / 10 / 10) 10 ≡ false = ground arith in
    let d : ltb (y / 10 / 10 / 10) 10 ≡ true = ground arith in rw (a, b, c, d) refl

year-IsGood :
    (y : ℕ) → 1000 ≤ y → y ≤ 9999 → IsGood (year_text y) × (is_year_part (year_text y) ≡ true)
unfolding IsGood
year-IsGood y l u = rw (year-digits y l u) ((ground arith, ground arith), ground arith)

month-IsGood :
    (m : ℕ) → 1 ≤ m → m ≤ 12 → IsGood (month_text m) × (is_month_part (month_text m) ≡ true)
unfolding IsGood
month-IsGood m l u = elim (Bool-cases (ltb m 10)) [
  | inl t ↦ rw t ((ground arith, ground arith), ground arith)
  | inr f ↦
      let d : ltb (m / 10) 10 ≡ true = ground arith in
      rw (f, d) ((ground arith, ground arith), ground arith)
]

take-append : (n : ℕ) (xs ys : List ℕ) → length xs ≡ n → take n (xs ++ ys) ≡ xs
take-append zero [] ys h = refl
take-append zero (x ∷ xs) ys h = absurd (omega arith)
take-append (suc n) [] ys h = absurd (omega arith)
take-append (suc n) (x ∷ xs) ys h = ap (λ t. x ∷ t) (take-append n xs ys (omega arith))

drop-append : (n : ℕ) (xs ys : List ℕ) → length xs ≡ n → drop n (xs ++ ys) ≡ ys
drop-append zero [] ys h = refl
drop-append zero (x ∷ xs) ys h = absurd (omega arith)
drop-append (suc n) [] ys h = absurd (omega arith)
drop-append (suc n) (x ∷ xs) ys h = drop-append n xs ys (omega arith)

nonce-blob : (nonce : List ℕ) → is_nonce nonce ≡ true → is_blob_part (nonce ++ codes ".blob") ≡ true
nonce-blob nonce h =
    let n : length nonce ≡ 16 = ground arith in
    rw (take-append 16 nonce (codes ".blob") n, drop-append 16 nonce (codes ".blob") n, h) refl

key_chars-plain :
    (t s : List ℕ)
    → all is_key_char t ≡ true
    → is_plain_text s ≡ true
    → is_plain_text (t ++ s) ≡ true
key_chars-plain [] s h p = p
key_chars-plain (c ∷ cs) s h p = ground (arith, key_chars-plain cs s)

-- A text that does not begin with a dot is not `.` or `..`.
not_unsafe : (c : ℕ) (cs : List ℕ) → (c == b'.') ≡ false → is_unsafe_segment (c ∷ cs) ≡ false
not_unsafe c cs h = rw h refl

blob-IsGood : (nonce : List ℕ) → is_nonce nonce ≡ true → IsGood (nonce ++ codes ".blob")
unfolding IsGood
blob-IsGood [] h = cc
blob-IsGood (c ∷ cs) h =
    let chars : all is_key_char (c ∷ cs) ≡ true = ground arith in
    (
      key_chars-plain (c ∷ cs) (codes ".blob") chars refl,
      not_unsafe c (cs ++ codes ".blob") (ground arith),
    )

segment-plain :
    (value encoded : List ℕ)
    → encode_object_key_segment value ≡ some encoded
    → is_plain_text encoded ≡ true
unfolding encode_object_key_segment
segment-plain value encoded e = elim (Bool-cases (is_empty (trim value))) [
  | inl t ↦ subst (λ s. is_plain_text s ≡ true) (some-injective (rw t at e)) refl
  | inr t ↦ encode-plain (trim value) encoded (rw t at e)
]

is_refused : List ℕ → Bool
is_refused encoded =
    is_empty encoded || same_codes encoded (codes ".") || same_codes encoded (codes "..")

pub safe_segment-IsGood :
    (value : List ℕ) (o : Option (List ℕ)) (segment : List ℕ)
    → encode_object_key_segment value ≡ o
    → safe_segment o ≡ some segment
    → (encode_object_key_segment value ≡ some segment) × IsGood segment
unfolding IsGood is_refused
safe_segment-IsGood value none segment e h = cc
safe_segment-IsGood value (some encoded) segment e h = elim (Bool-cases (is_refused encoded)) [
  | inl r ↦ cc (rw r at h)
  | inr r ↦
      let same : encoded ≡ segment = some-injective (rw r at h) in
      let encodes : encode_object_key_segment value ≡ some segment = e ∙ ap (λ t. some t) same in
      (
        encodes,
        (
          segment-plain value segment encodes,
          subst (λ t. is_unsafe_segment t ≡ false) same (ground (arith, r)),
        ),
      )
]

scope-IsGood : (scope : Option (List ℕ)) → IsGood (normalize_space_scope scope)
unfolding IsGood
scope-IsGood none = (refl, refl)
scope-IsGood (some value) = elim (Bool-cases (same_codes value (codes "personal"))) [
  | inl p ↦ rw p (refl, refl)
  | inr p ↦ rw p (refl, refl)
]

-- The parts of a key from the segment of the workspace on.
abbrev later_parts : FileObjectKeyInput → List ℕ → List (List ℕ)
later_parts input segment =
    segment
    ∷ spaces_group
    ∷ normalize_space_scope input.space_scope
    ∷ object_group
    ∷ original_object_type
    ∷ current_object_key_version
    ∷ year_text input.year
    ∷ month_text input.month
    ∷ (input.nonce ++ codes ".blob")
    ∷ []

-- What a date, a nonce and a segment of a key that is created are.
abbrev HasParts : FileObjectKeyInput → List ℕ → Type 0
HasParts input segment =
    IsGood segment
    × (IsGood (year_text input.year) × (is_year_part (year_text input.year) ≡ true))
    × (IsGood (month_text input.month) × (is_month_part (month_text input.month) ≡ true))
    × (is_nonce input.nonce ≡ true)

parts-good :
    (input : FileObjectKeyInput) (segment : List ℕ)
    → HasParts input segment
    → (all is_plain_text (later_parts input segment) ≡ true)
      × (any is_unsafe_segment (later_parts input segment) ≡ false)
unfolding IsGood
parts-good input segment (s, (y, _), (m, _), n) =
    let blob = blob-IsGood input.nonce n in
    let scope = scope-IsGood input.space_scope in
    (rw (s.0, scope.0, y.0, m.0, blob.0) refl, rw (s.1, scope.1, y.1, m.1, blob.1) refl)

abbrev pub payload_of : FileObjectKeyInput → List ℕ → List ℕ → FileObjectKeyPayload
payload_of input file_name key = record {
  file_name = file_name;
  object_key = key;
  space_scope = input.space_scope;
  workspace_id = input.workspace_id;
}

module _ (input : FileObjectKeyInput) (file_name segment key : List ℕ)
    (has : HasParts input segment)
    (encodes : encode_object_key_segment input.workspace_id ≡ some segment)
    (safe : is_safe_object_key key ≡ true)
    (splits : offset_parts key ≡ workspace_root ∷ later_parts input segment) where
  version_two_accepts : is_version_two_key (payload_of input file_name key) ≡ some true
  unfolding is_version_two_key
  version_two_accepts =
      let (s, (_, y), (_, m), n) = has in
      rw
        (
          is_version_two_key,
          splits,
          encodes,
          safe,
          same_codes_refl segment,
          same_codes_refl (normalize_space_scope input.space_scope),
          y,
          m,
          nonce-blob input.nonce n,
        )
        refl

  key_accepted : is_upload_object_key_for_payload (payload_of input file_name key) ≡ some true
  unfolding is_upload_object_key_for_payload
  key_accepted = rw version_two_accepts refl

-- A key is created and accepted for the same upload.
abbrev pub IsAccepted : FileObjectKeyInput → List ℕ → Option (List ℕ) → Type 0
IsAccepted input file_name none = ⊥
IsAccepted input file_name (some key) =
    is_upload_object_key_for_payload (payload_of input file_name key) ≡ some true

module _ (input : FileObjectKeyInput) (file_name segment : List ℕ) (has : HasParts input segment)
    (encodes : encode_object_key_segment input.workspace_id ≡ some segment) where
  distributed-IsAccepted : IsAccepted input file_name (some (join_parts (key_parts input segment)))
  unfolding offset_parts
  distributed-IsAccepted =
      let (plain, good) = parts-good input segment has in
      let split = parts_of-join workspace_root (later_parts input segment) refl plain in
      let safe = join-safe workspace_root (later_parts input segment) refl plain good in
      key_accepted input file_name segment (join_parts (key_parts input segment)) has encodes safe
        (ap (λ s. without_prefix (s.0 ∷ s.1)) split)

  local-IsAccepted :
      IsAccepted input file_name (some (join_parts (local_prefix ∷ key_parts input segment)))
  unfolding offset_parts
  local-IsAccepted =
      let (plain, good) = parts-good input segment has in
      let parts = workspace_root ∷ later_parts input segment in
      let split = parts_of-join local_prefix parts refl plain in
      let safe = join-safe local_prefix parts refl plain good in
      key_accepted input file_name segment (join_parts (local_prefix ∷ parts)) has encodes safe
        (ap (λ s. without_prefix (s.0 ∷ s.1)) split)

  key_of-IsAccepted : IsAccepted input file_name (key_of input segment)
  key_of-IsAccepted =
      let (_, _, _, n) = has in
      elim (Bool-cases input.distributed_storage) [
        | inl d ↦ rw (n, d) distributed-IsAccepted
        | inr d ↦ rw (n, d) local-IsAccepted
      ]

-- For a date of the years 1000 to 9999, a nonce of the form that is drawn, and a workspace whose id
-- gives a segment, a key is created, with or without the local prefix, and it is accepted for an
-- upload to that workspace and space, whatever the file's name.
pub create-IsAccepted :
    (input : FileObjectKeyInput) (file_name segment : List ℕ)
    → 1000 ≤ input.year
    → input.year ≤ 9999
    → 1 ≤ input.month
    → input.month ≤ 12
    → is_nonce input.nonce ≡ true
    → require_safe_object_key_segment input.workspace_id ≡ some segment
    → IsAccepted input file_name (create_file_object_key input)
unfolding create_file_object_key require_safe_object_key_segment
create-IsAccepted input file_name segment l u m k n r =
    let (encodes, good) =
      safe_segment-IsGood input.workspace_id (encode_object_key_segment input.workspace_id) segment
        refl r in
    let has : HasParts input segment =
      (good, year-IsGood input.year l u, month-IsGood input.month m k, n) in
    rw (create_file_object_key, r) (key_of-IsAccepted input file_name segment has encodes)
