-- ===== src/Storage/ObjectKeys/Encoded.antt =====
-- An encoded text has neither a slash nor a backslash.
use icedr.Prelude.{
  ℕ, ◌+◌, ◌/◌, ◌%◌, ◌≡◌, refl, true, Option, none, some, List, [], ◌∷◌, ltb, all, arith, Bool-cases,
  inl, inr, subst,
}
use icedr.Storage.ObjectKeys.Encoding.{
  is_unreserved, upper_hex, percent, is_high_surrogate, is_low_surrogate, encode_unit, code_point,
  encode_pair, pending_after, encode_next, encode_from, encode_uri_component, is_plain,
}

hex-plain : (n : ℕ) → is_plain (upper_hex n) ≡ true
hex-plain n = elim (Bool-cases (ltb (n % 16) 10)) [
  | inl l ↦ rw l (ground arith)
  | inr l ↦ rw l (ground arith)
]

percent-plain :
    (byte : ℕ) (rest : List ℕ) → all is_plain rest ≡ true → all is_plain (percent byte rest) ≡ true
percent-plain byte rest h = rw (hex-plain (byte / 16), hex-plain byte, h) refl

unreserved-plain : (c : ℕ) → is_unreserved c ≡ true → is_plain c ≡ true
unreserved-plain c h = ground arith

unit-plain :
    (c : ℕ) (rest : List ℕ) → all is_plain rest ≡ true → all is_plain (encode_unit c rest) ≡ true
unit-plain c rest h = elim (Bool-cases (is_unreserved c)) [
  | inl u ↦ rw (u, unreserved-plain c u) h
  | inr u ↦ rw u (elim (Bool-cases (ltb c 128)) [
    | inl l ↦ rw l (percent-plain c rest h)
    | inr l ↦ rw l (elim (Bool-cases (ltb c 2048)) [
      | inl m ↦ rw m (
          percent-plain (192 + c / 64) (percent (128 + c % 64) rest)
            (percent-plain (128 + c % 64) rest h))
      | inr m ↦ rw m (
          percent-plain (224 + c / 4096) (percent (128 + c / 64 % 64) (percent (128 + c % 64) rest))
            (percent-plain (128 + c / 64 % 64) (percent (128 + c % 64) rest)
              (percent-plain (128 + c % 64) rest h)))
    ])
  ])
]

pair-plain :
    (p : ℕ) (rest : List ℕ) → all is_plain rest ≡ true → all is_plain (encode_pair p rest) ≡ true
pair-plain p rest h =
    let one = percent-plain (128 + p % 64) rest h in
    let two = percent-plain (128 + p / 64 % 64) (percent (128 + p % 64) rest) one in
    let three =
      percent-plain (128 + p / 4096 % 64)
        (percent (128 + p / 64 % 64) (percent (128 + p % 64) rest)) two in
    percent-plain (240 + p / 262144)
      (percent (128 + p / 4096 % 64) (percent (128 + p / 64 % 64) (percent (128 + p % 64) rest)))
      three

-- What is plain, or an error.
abbrev IsPlain : Option (List ℕ) → Type 0
IsPlain none = Unit
IsPlain (some t) = all is_plain t ≡ true

next-IsPlain :
    (pending : Option ℕ) (c : ℕ) (rest : Option (List ℕ))
    → IsPlain rest
    → IsPlain (encode_next pending c rest)
next-IsPlain pending c none h = tt
next-IsPlain none c (some rest) h = elim (Bool-cases (is_high_surrogate c)) [
  | inl p ↦ rw p h
  | inr p ↦ rw p (elim (Bool-cases (is_low_surrogate c)) [
    | inl q ↦ rw q tt
    | inr q ↦ rw q (unit-plain c rest h)
  ])
]
next-IsPlain (some high) c (some rest) h = elim (Bool-cases (is_low_surrogate c)) [
  | inl p ↦ rw p (pair-plain (code_point high c) rest h)
  | inr p ↦ rw p tt
]

from-IsPlain : (pending : Option ℕ) (t : List ℕ) → IsPlain (encode_from pending t)
unfolding encode_from
from-IsPlain none [] = refl
from-IsPlain (some high) [] = tt
from-IsPlain pending (c ∷ cs) =
    next-IsPlain pending c (encode_from (pending_after pending c) cs)
      (from-IsPlain (pending_after pending c) cs)

pub encode-plain :
    (value encoded : List ℕ)
    → encode_uri_component value ≡ some encoded
    → all is_plain encoded ≡ true
unfolding encode_uri_component
encode-plain value encoded h = subst IsPlain h (from-IsPlain none value)
