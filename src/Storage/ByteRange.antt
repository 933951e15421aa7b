-- ===== src/Storage/ByteRange.antt =====
-- backend/src/modules/storage/object-byte-range.ts: the `Range` header of a download. A header is
-- the list of its UTF-16 code units; a size is a natural number.
pub mod Parsing
pub mod Bounds
use icedr.Prelude.{
  ℕ, ◌+◌, ◌-◌, ◌*◌, ◌^◌, Bool, true, false, not, ◌&&◌, ◌||◌, Option, none, some, List, [], ◌∷◌,
  if◌then◌else◌, leb, ltb, ◌==◌, min, codes, is_empty, is_digit, trim, any,
}

pub record ObjectByteRange : Type 0 where
  pub end : ℕ
  pub length : ℕ
  pub start : ℕ

-- `null`, a range, or `RangeNotSatisfiableException` with the size that it reports.
pub data RangeResult : Type 0 where
  whole : RangeResult
  range : ObjectByteRange → RangeResult
  not_satisfiable : ℕ → RangeResult

-- `Number.isSafeInteger`, on natural numbers.
unfoldable pub is_safe_integer : ℕ → Bool
is_safe_integer n = ltb n (2 ^ 53)

-- The longest prefix of digits, and the rest.
unfoldable pub span_digits : List ℕ → List ℕ × List ℕ
span_digits [] = ([], [])
span_digits (c ∷ cs) =
    let (ds, rest) = span_digits cs in if is_digit c then (c ∷ ds, rest) else ([], c ∷ cs)

-- What follows a literal prefix.
pub after : List ℕ → List ℕ → Option (List ℕ)
after [] s = some s
after (p ∷ ps) [] = none
after (p ∷ ps) (c ∷ cs) = let rest = after ps cs in if p == c then rest else none

abbrev pub range_end : List ℕ → List ℕ → Option (List ℕ × List ℕ)
range_end start [] = none
range_end start (c ∷ cs) =
    let (ds, rest) = span_digits cs in if c == b'-' && is_empty rest then some (start, ds) else none

abbrev pub range_values : Option (List ℕ) → Option (List ℕ × List ℕ)
range_values none = none
range_values (some s) = let (ds, rest) = span_digits s in range_end ds rest

-- `/^bytes=(\d*)-(\d*)$/.exec(text)`, the two groups.
unfoldable pub match_range : List ℕ → Option (List ℕ × List ℕ)
unfolding span_digits after
match_range s = range_values (after (codes "bytes=") s)

-- `Number(value)` of a text of digits.
unfoldable pub number_from : ℕ → List ℕ → ℕ
number_from acc [] = acc
number_from acc (c ∷ cs) = number_from (acc * 10 + (c - b'0')) cs

unfoldable pub number : List ℕ → ℕ
unfolding number_from
number value = number_from 0 value

abbrev pub all_digits : List ℕ → Bool
all_digits [] = true
all_digits (c ∷ cs) = is_digit c && all_digits cs

-- `none` is the exception, which reports the size. A number of digits is not negative.
unfoldable pub parse_range_integer : List ℕ → Option ℕ
unfolding is_safe_integer number
parse_range_integer value =
    if is_empty value || not (all_digits value)
    then none
    else if not (is_safe_integer (number value))
    then none
    else some (number value)

abbrev pub suffix_range : ℕ → Option ℕ → RangeResult
suffix_range size none = not_satisfiable size
suffix_range size (some suffix_length) =
    let length = min suffix_length size in
    if leb suffix_length 0 || size == 0
    then not_satisfiable size
    else range (record { end = size - 1; length = length; start = size - length })

abbrev pub closed_range : ℕ → ℕ → Option ℕ → RangeResult
closed_range size start none = not_satisfiable size
closed_range size start (some end) =
    if ltb end start
    then not_satisfiable size
    else range (record { end = end; length = end - start + 1; start = start })

abbrev pub clip : ℕ → Option ℕ → Option ℕ
clip size none = none
clip size (some n) = some (min n (size - 1))

abbrev pub start_range : ℕ → List ℕ → Option ℕ → RangeResult
start_range size end_value none = not_satisfiable size
start_range size end_value (some start) =
    if leb size start
    then not_satisfiable size
    else closed_range size start
        (if is_empty end_value then some (size - 1) else clip size (parse_range_integer end_value))

abbrev pub matched_range : ℕ → Option (List ℕ × List ℕ) → RangeResult
matched_range size none = not_satisfiable size
matched_range size (some (start_value, end_value)) =
    if is_empty start_value && is_empty end_value
    then not_satisfiable size
    else if is_empty start_value
    then suffix_range size (parse_range_integer end_value)
    else start_range size end_value (parse_range_integer start_value)

unfoldable pub resolve_object_byte_range : Option (List ℕ) → ℕ → RangeResult
resolve_object_byte_range none size = whole
resolve_object_byte_range (some header) size =
    let found = match_range (trim header) in
    if is_empty (trim header)
    then whole
    else if not (is_safe_integer size)
    then not_satisfiable size
    else if any (λ c. c == b',') header
    then not_satisfiable size
    else matched_range size found
