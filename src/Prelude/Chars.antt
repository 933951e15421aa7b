-- ===== src/Prelude/Chars.antt =====
-- Texts that the program walks, as the list of their UTF-16 code units, and JavaScript's `trim`.
use Prim.Native.Nat.{ℕ}
use Prim.Native.Char.{code}
use Prim.Native.String.{String}
use mathlib.Core.Path.{◌≡◌, refl}
use mathlib.Core.Bool.{Bool, true, false, ◌&&◌, ◌||◌}
use mathlib.Core.List.{List, [], ◌∷◌}
use native.Mathlib.Omega.{arith}
use icedr.Prelude.Tests.{leb, ◌==◌, if◌then◌else◌}
use icedr.Prelude.Lists.{All}

abbrev pub codes : String → List ℕ
codes String.[] = []
codes (String.◌∷◌ c s) = code c ∷ codes s

-- `a === b` on texts as lists
abbrev pub same_codes : List ℕ → List ℕ → Bool
same_codes [] [] = true
same_codes (c ∷ cs) (d ∷ ds) = c == d && same_codes cs ds
same_codes _ _ = false

abbrev pub is_empty {ℓ} : {A : Type ℓ} → List A → Bool
is_empty [] = true
is_empty (_ ∷ _) = false

abbrev pub is_digit : ℕ → Bool
is_digit c = leb b'0' c && leb c b'9'

-- The white space and line ends that `trim` removes.
unfoldable pub is_space : ℕ → Bool
is_space c =
    leb 9 c && leb c 13
    || c == 32
    || c == 160
    || c == 5760
    || leb 8192 c && leb c 8202
    || c == 8232
    || c == 8233
    || c == 8239
    || c == 8287
    || c == 12288
    || c == 65279

pub trim_start : List ℕ → List ℕ
trim_start [] = []
trim_start (c ∷ cs) = let rest = trim_start cs in if is_space c then rest else c ∷ cs

pub trim_end : List ℕ → List ℕ
trim_end [] = []
trim_end (c ∷ cs) = let rest = trim_end cs in if is_space c && is_empty rest then [] else c ∷ rest

unfoldable pub trim : List ℕ → List ℕ
unfolding trim_start trim_end is_space
trim s = trim_end (trim_start s)

trim_end-of_All : (s : List ℕ) → All (λ c. is_space c ≡ false) s → trim_end s ≡ s
unfolding trim_end
trim_end-of_All [] h = refl
trim_end-of_All (c ∷ cs) (h, hs) = ground (arith, trim_end-of_All cs hs)

-- A text without white space is not changed.
pub trim-of_All : (s : List ℕ) → All (λ c. is_space c ≡ false) s → trim s ≡ s
unfolding trim trim_start
trim-of_All [] h = refl
trim-of_All (c ∷ cs) (h, hs) = ground (arith, trim_end-of_All (c ∷ cs) (h, hs))

pub digit-not_space : (c : ℕ) → is_digit c ≡ true → is_space c ≡ false
unfolding is_space
digit-not_space c h = ground arith
