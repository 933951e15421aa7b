-- ===== src/Storage/ObjectKeys/Splitting.antt =====
-- A key that is joined from plain parts splits into them.
use icedr.Prelude.{ℕ, ◌≡◌, refl, Bool, true, false, List, [], ◌∷◌, ◌++◌, ◌==◌, all, any, arith}
use icedr.Storage.ObjectKeys.{
  split_key, join_rest, join_parts, is_unsafe_segment, has_unsafe_path_segments, is_safe_object_key,
}
use icedr.Storage.ObjectKeys.Encoding.{is_plain}

abbrev pub is_plain_text : List ℕ → Bool
is_plain_text part = all is_plain part

split-append :
    (part tail : List ℕ) (parts : List (List ℕ))
    → is_plain_text part ≡ true
    → split_key tail ≡ ([], parts)
    → split_key (part ++ tail) ≡ (part, parts)
unfolding split_key
split-append [] tail parts h s = s
split-append (c ∷ cs) tail parts h s =
    let no_slash : (c == b'/') ≡ false = ground arith in
    rw (split-append cs tail parts (ground arith) s, no_slash) refl

split-join_rest :
    (parts : List (List ℕ))
    → all is_plain_text parts ≡ true
    → split_key (join_rest parts) ≡ ([], parts)
unfolding split_key
split-join_rest [] h = refl
split-join_rest (part ∷ parts) h =
    let split =
      split-append part (join_rest parts) parts (ground arith)
        (split-join_rest parts (ground arith)) in
    rw split refl

pub parts_of-join :
    (part : List ℕ) (parts : List (List ℕ))
    → is_plain_text part ≡ true
    → all is_plain_text parts ≡ true
    → split_key (join_parts (part ∷ parts)) ≡ (part, parts)
parts_of-join part parts p h = split-append part (join_rest parts) parts p (split-join_rest parts h)

any-append :
    (p : ℕ → Bool) (xs ys : List ℕ) → any p xs ≡ false → any p ys ≡ false → any p (xs ++ ys) ≡ false
any-append p [] ys h k = k
any-append p (x ∷ xs) ys h k = ground (arith, any-append p xs ys)

plain-no_backslash : (t : List ℕ) → is_plain_text t ≡ true → any (λ c. c == 92) t ≡ false
plain-no_backslash [] h = refl
plain-no_backslash (c ∷ cs) h = ground (arith, plain-no_backslash cs)

join-no_backslash :
    (parts : List (List ℕ))
    → all is_plain_text parts ≡ true
    → any (λ c. c == 92) (join_rest parts) ≡ false
join-no_backslash [] h = refl
join-no_backslash (part ∷ parts) h =
    rw
      (any-append (λ c. c == 92) part (join_rest parts) (plain-no_backslash part (ground arith))
        (join-no_backslash parts (ground arith)))
      refl

-- A key of plain parts none of which is empty, `.` or `..` is safe.
pub join-safe :
    (part : List ℕ) (parts : List (List ℕ))
    → is_plain_text part ≡ true
    → all is_plain_text parts ≡ true
    → any is_unsafe_segment (part ∷ parts) ≡ false
    → is_safe_object_key (join_parts (part ∷ parts)) ≡ true
unfolding is_safe_object_key has_unsafe_path_segments
join-safe part parts p h u =
    rw
      (
        is_safe_object_key,
        has_unsafe_path_segments,
        parts_of-join part parts p h,
        any-append (λ c. c == 92) part (join_rest parts) (plain-no_backslash part p)
            (join-no_backslash parts h),
        u,
      )
      refl
