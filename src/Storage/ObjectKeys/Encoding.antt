-- ===== src/Storage/ObjectKeys/Encoding.antt =====
-- JavaScript's `encodeURIComponent` on code units.
use icedr.Prelude.{
  ℕ, ◌+◌, ◌-◌, ◌*◌, ◌/◌, ◌%◌, Bool, not, ◌&&◌, ◌||◌, Option, none, some, List, [], ◌∷◌,
  if◌then◌else◌, leb, ltb, ◌==◌, is_digit,
}

-- The characters that are kept: letters, digits and `- _ . ! ~ * ' ( )`.
abbrev pub is_unreserved : ℕ → Bool
is_unreserved c =
    leb b'A' c && leb c b'Z'
    || leb b'a' c && leb c b'z'
    || is_digit c
    || c == b'-'
    || c == b'_'
    || c == b'.'
    || c == b'!'
    || c == b'~'
    || c == b'*'
    || c == 39
    || c == b'('
    || c == b')'

abbrev pub upper_hex : ℕ → ℕ
upper_hex n = if ltb (n % 16) 10 then b'0' + n % 16 else 55 + n % 16

-- A byte as `%XX`.
abbrev pub percent : ℕ → List ℕ → List ℕ
percent byte rest = b'%' ∷ upper_hex (byte / 16) ∷ upper_hex byte ∷ rest

abbrev pub is_high_surrogate : ℕ → Bool
is_high_surrogate c = leb 55296 c && leb c 56319

abbrev pub is_low_surrogate : ℕ → Bool
is_low_surrogate c = leb 56320 c && leb c 57343

-- A code unit that stands alone, and a pair of surrogates, as the bytes of UTF-8.
abbrev pub encode_unit : ℕ → List ℕ → List ℕ
encode_unit c rest =
    if is_unreserved c
    then c ∷ rest
    else if ltb c 128
    then percent c rest
    else if ltb c 2048
    then percent (192 + c / 64) (percent (128 + c % 64) rest)
    else percent (224 + c / 4096) (percent (128 + c / 64 % 64) (percent (128 + c % 64) rest))

abbrev pub code_point : ℕ → ℕ → ℕ
code_point high low = 65536 + (high - 55296) * 1024 + (low - 56320)

abbrev pub encode_pair : ℕ → List ℕ → List ℕ
encode_pair p rest =
    percent (240 + p / 262144)
      (percent (128 + p / 4096 % 64) (percent (128 + p / 64 % 64) (percent (128 + p % 64) rest)))

-- The high surrogate that waits for the low one of its pair.
abbrev pub pending_after : Option ℕ → ℕ → Option ℕ
pending_after none c = if is_high_surrogate c then some c else none
pending_after (some high) c = none

abbrev pub encode_next : Option ℕ → ℕ → Option (List ℕ) → Option (List ℕ)
encode_next pending c none = none
encode_next none c (some rest) =
    if is_high_surrogate c
    then some rest
    else if is_low_surrogate c
    then none
    else some (encode_unit c rest)
encode_next (some high) c (some rest) =
    if is_low_surrogate c then some (encode_pair (code_point high c) rest) else none

unfoldable pub encode_from : Option ℕ → List ℕ → Option (List ℕ)
encode_from none [] = some []
encode_from (some high) [] = none
encode_from pending (c ∷ cs) = encode_next pending c (encode_from (pending_after pending c) cs)

-- `none` is the error of a surrogate without its pair.
unfoldable pub encode_uri_component : List ℕ → Option (List ℕ)
unfolding encode_from
encode_uri_component value = encode_from none value

-- Neither a slash nor a backslash.
abbrev pub is_plain : ℕ → Bool
is_plain c = not (c == b'/') && not (c == 92)
