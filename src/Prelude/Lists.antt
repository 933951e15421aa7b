-- ===== src/Prelude/Lists.antt =====
-- Lists filtered, searched and counted by Boolean tests, over the native numbers.
use Prim.Native.Nat.{ℕ, suc}
use Prim.Native.String.{String}
use mathlib.Core.Path.{◌≡◌}
use mathlib.Core.Bool.{Bool, true, false, ◌&&◌, ◌||◌}
use mathlib.Core.Option.{Option, none, some}
use mathlib.Core.List.{List, [], ◌∷◌, map}
use native.Mathlib.Omega.{arith}
use text.Mathlib.Text.{◌==◌ as str_eq}
use icedr.Prelude.Tests.{if◌then◌else◌}

module _ {ℓ} {A : Type ℓ} where
  abbrev pub length : List A → ℕ
  length [] = 0
  length (x ∷ xs) = suc (length xs)

  abbrev pub filter : (A → Bool) → List A → List A
  filter p [] = []
  filter p (x ∷ xs) = let rest = filter p xs in if p x then x ∷ rest else rest

  abbrev pub find? : (A → Bool) → List A → Option A
  find? p [] = none
  find? p (x ∷ xs) = let rest = find? p xs in if p x then some x else rest

  abbrev pub any : (A → Bool) → List A → Bool
  any p [] = false
  any p (x ∷ xs) = p x || any p xs

  abbrev pub all : (A → Bool) → List A → Bool
  all p [] = true
  all p (x ∷ xs) = p x && all p xs

-- `texts.includes(t)`
abbrev pub contains : List String → String → Bool
contains xs t = any (λ x. str_eq x t) xs

module _ {ℓ κ} {A : Type ℓ} (P : A → Type κ) where
  abbrev pub All : List A → Type κ
  All [] = Unit
  All (x ∷ xs) = P x × All xs

-- Two lists, related place by place.
module _ {ℓ κ} {A : Type ℓ} {B : Type κ} (R : A → B → Type 0) where
  abbrev pub Rows : List A → List B → Type 0
  Rows [] [] = Unit
  Rows (x ∷ xs) (y ∷ ys) = R x y × Rows xs ys
  Rows _ _ = ⊥

  pub Rows-map : (f : A → B) → ((x : A) → R x (f x)) → (xs : List A) → Rows xs (map f xs)
  Rows-map f h [] = tt
  Rows-map f h (x ∷ xs) = (h x, Rows-map f h xs)

module _ {ℓ} {A : Type ℓ} (R : A → A → Type 0) where
  pub Rows-refl : ((x : A) → R x x) → (xs : List A) → Rows R xs xs
  Rows-refl h [] = tt
  Rows-refl h (x ∷ xs) = (h x, Rows-refl h xs)

  pub Rows-trans :
      ((x y z : A) → R x y → R y z → R x z)
      → (xs ys zs : List A) → Rows R xs ys
      → Rows R ys zs
      → Rows R xs zs
  Rows-trans h [] [] [] p q = tt
  Rows-trans h [] [] (z ∷ zs) p q = absurd q
  Rows-trans h [] (y ∷ ys) zs p q = absurd p
  Rows-trans h (x ∷ xs) [] zs p q = absurd p
  Rows-trans h (x ∷ xs) (y ∷ ys) [] p q = absurd q
  Rows-trans h (x ∷ xs) (y ∷ ys) (z ∷ zs) (p, ps) (q, qs) =
      (h x y z p q, Rows-trans h xs ys zs ps qs)

module _ {ℓ} {A : Type ℓ} (p : A → Bool) where
  pub any_of_find? : (xs : List A) {x : A} → find? p xs ≡ some x → (p x ≡ true) × (any p xs ≡ true)
  any_of_find? [] h = cc
  any_of_find? (y ∷ xs) {x} h = ground (arith, any_of_find? xs {x = x})
