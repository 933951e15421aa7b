-- ===== src/Storage/ByteRange/Parsing.antt =====
-- How object-byte-range.ts reads headers of the forms `bytes=a-b`, `bytes=a-` and `bytes=-n`.
use icedr.Prelude.{
  ℕ, ◌+◌, ◌-◌, ◌^◌, ◌≤◌, ◌<◌, min, ◌≡◌, ◌≢◌, refl, ap, true, false, some, List, [], ◌∷◌, ◌++◌,
  arith, codes, is_empty, is_space, digit-not_space, trim, trim-of_All, All, any, ◌==◌,
}
use icedr.Storage.ByteRange.{
  range, matched_range, resolve_object_byte_range, span_digits, match_range, number, all_digits,
  parse_range_integer, is_safe_integer,
}

span_digits-append :
    (ds : List ℕ) (s : List ℕ)
    → all_digits ds ≡ true
    → span_digits (ds ++ b'-' ∷ s) ≡ (ds, b'-' ∷ s)
unfolding span_digits
span_digits-append [] s h = refl
span_digits-append (d ∷ ds) s h = ground (arith, span_digits-append ds s)

span_digits_all : (ds : List ℕ) → all_digits ds ≡ true → span_digits ds ≡ (ds, [])
unfolding span_digits
span_digits_all [] h = refl
span_digits_all (d ∷ ds) h = ground (arith, span_digits_all ds)

digits-All : (ds : List ℕ) → all_digits ds ≡ true → All (λ c. is_space c ≡ false) ds
digits-All [] h = tt
digits-All (d ∷ ds) h = (digit-not_space d (ground arith), digits-All ds (ground arith))

abbrev pub range_header : List ℕ → List ℕ → List ℕ
range_header ds es = codes "bytes=" ++ (ds ++ b'-' ∷ es)

All-append : (P : ℕ → Type 0) (xs ys : List ℕ) → All P xs → All P ys → All P (xs ++ ys)
All-append P [] ys h k = k
All-append P (x ∷ xs) ys (p, h) k = (p, All-append P xs ys h k)

no_comma :
    (ds : List ℕ) (s : List ℕ)
    → all_digits ds ≡ true
    → any (λ c. c == b',') s ≡ false
    → any (λ c. c == b',') (ds ++ s) ≡ false
no_comma [] s h k = k
no_comma (d ∷ ds) s h k = ground (arith, no_comma ds s)

no_comma_in : (es : List ℕ) → all_digits es ≡ true → any (λ c. c == b',') es ≡ false
no_comma_in [] h = refl
no_comma_in (e ∷ es) h = ground (arith, no_comma_in es)

is_safe_integer-of_lt : (n : ℕ) → n < 2 ^ 53 → is_safe_integer n ≡ true
unfolding is_safe_integer
is_safe_integer-of_lt n h = ground arith

is_empty-of_ne : (v : List ℕ) → v ≢ [] → is_empty v ≡ false
is_empty-of_ne [] h = absurd (h refl)
is_empty-of_ne (c ∷ cs) h = refl

parse-digits :
    (v : List ℕ)
    → all_digits v ≡ true
    → v ≢ []
    → number v < 2 ^ 53
    → parse_range_integer v ≡ some (number v)
unfolding parse_range_integer
parse-digits [] h k l = absurd (k refl)
parse-digits (c ∷ cs) h k l = ground arith

module _ (ds es : List ℕ) (hd : all_digits ds ≡ true) (he : all_digits es ≡ true) where
  trim-range_header : trim (range_header ds es) ≡ range_header ds es
  unfolding is_space
  trim-range_header = trim-of_All (range_header ds es) (
    refl,
    (
      refl,
      (
        refl,
        (
          refl,
          (
            refl,
            (
              refl,
              All-append (λ c. is_space c ≡ false) ds (b'-' ∷ es) (digits-All ds hd)
                  (refl, digits-All es he),
            ),
          ),
        ),
      ),
    ),
  )

  match-range_header : match_range (range_header ds es) ≡ some (ds, es)
  unfolding match_range
  match-range_header = rw (span_digits-append ds es hd) (rw (span_digits_all es he) refl)

  resolve-range_header :
      (size : ℕ)
      → is_safe_integer size ≡ true
      → resolve_object_byte_range (some (range_header ds es)) size
        ≡ matched_range size (some (ds, es))
  unfolding resolve_object_byte_range
  resolve-range_header size h =
      rw trim-range_header
        (rw (h, no_comma ds (b'-' ∷ es) hd (no_comma_in es he), match-range_header) refl)

  -- `bytes=a-b`, on an object whose size and both numbers are safe integers, with a inside the
  -- object and a at most b, is the range from a to b, cut at the end of the object.
  pub resolve-closed :
      (size : ℕ)
      → size < 2 ^ 53
      → number ds < 2 ^ 53
      → number es < 2 ^ 53
      → ds ≢ []
      → es ≢ []
      → number ds < size
      → number ds ≤ number es
      → resolve_object_byte_range (some (range_header ds es)) size
        ≡ range (record {
          end = min (number es) (size - 1);
          length = min (number es) (size - 1) - number ds + 1;
          start = number ds;
        })
  resolve-closed size hs hn hm nd ne i j =
      rw (resolve-range_header size (is_safe_integer-of_lt size hs)) (
        ground (
          arith,
          is_empty-of_ne ds nd,
          is_empty-of_ne es ne,
          parse-digits ds hd nd hn,
          parse-digits es he ne hm,
        ))

  -- `bytes=a-`, where a and the object's size are safe integers and a is inside the object, is the
  -- range from a to the end.
  pub resolve-open :
      (size : ℕ)
      → size < 2 ^ 53
      → number ds < 2 ^ 53
      → ds ≢ []
      → es ≡ []
      → number ds < size
      → resolve_object_byte_range (some (range_header ds es)) size
        ≡ range (record { end = size - 1; length = size - number ds; start = number ds })
  resolve-open size hs hn nd e i =
      rw (resolve-range_header size (is_safe_integer-of_lt size hs))
        (ground (arith, is_empty-of_ne ds nd, ap is_empty e, parse-digits ds hd nd hn))

  -- `bytes=-n`, where n and the object's size are safe integers and neither is zero, is the last n
  -- bytes, or all of them if there are fewer.
  pub resolve-suffix :
      (size : ℕ)
      → size < 2 ^ 53
      → number es < 2 ^ 53
      → ds ≡ []
      → es ≢ []
      → 0 < number es
      → 0 < size
      → resolve_object_byte_range (some (range_header ds es)) size
        ≡ range (record {
          end = size - 1;
          length = min (number es) size;
          start = size - min (number es) size;
        })
  resolve-suffix size hs hm d ne i j =
      rw (resolve-range_header size (is_safe_integer-of_lt size hs))
        (ground (arith, is_empty-of_ne es ne, ap is_empty d, parse-digits es he ne hm))
