-- ===== src/Prelude/Text.antt =====
-- Text as a list of bytes, and the decimal notation of an integer.
use Prim.Native.Nat.{ℕ, zero, suc, ◌+◌, ◌/◌, ◌%◌}
use Prim.Native.Char.{code}
use Prim.Native.String.{String}
use mathlib.Core.Path.{◌≡◌, refl}
use mathlib.Core.Bool.{Bool, true, false, ◌&&◌}
use mathlib.Core.List.{List, [], ◌∷◌}
use native.Mathlib.Omega.{arith}
use zhibo.Prelude.Tests.{◌==◌, ltb, if◌then◌else◌}
use zhibo.Prelude.Lists.{length}
use zhibo.Prelude.Int.{is_nonpos, ℤ, pos, negsuc}

abbrev pub Bytes : Type 0
Bytes = List ℕ

-- The bytes of an ASCII literal.
abbrev pub codes : String → Bytes
codes String.[] = []
codes (String.◌∷◌ c s) = code c ∷ codes s

abbrev pub str_eq : Bytes → Bytes → Bool
str_eq [] [] = true
str_eq [] (y ∷ ys) = false
str_eq (x ∷ xs) [] = false
str_eq (x ∷ xs) (y ∷ ys) = (x == y) && str_eq xs ys

abbrev pub is_empty {ℓ} : {A : Type ℓ} → List A → Bool
is_empty [] = true
is_empty (x ∷ xs) = false

pub is_empty-nonpos {ℓ} : {A : Type ℓ} (xs : List A) → is_nonpos (pos (length xs)) ≡ is_empty xs
is_empty-nonpos [] = refl
is_empty-nonpos (x ∷ xs) = refl

pub str_eq_sound : (a b : Bytes) → str_eq a b ≡ true → a ≡ b
str_eq_sound [] [] h = refl
str_eq_sound [] (y ∷ ys) h = cc
str_eq_sound (x ∷ xs) [] h = cc
str_eq_sound (x ∷ xs) (y ∷ ys) h = ground (arith, str_eq_sound xs ys)

pub str_eq_self : (a : Bytes) → str_eq a a ≡ true
str_eq_self [] = refl
str_eq_self (x ∷ xs) = ground (arith, str_eq_self xs)

-- Decimal digits of a number, on fuel; a number below the fuel is written out in full.
unfoldable pub digits : ℕ → ℕ → Bytes → Bytes
digits zero n out = out
digits (suc f) n out =
    let more = digits f (n / 10) ((n % 10 + 48) ∷ out) in if ltb n 10 then (n + 48) ∷ out else more

-- strconv.Itoa, and fmt's %d
unfoldable pub itoa : ℤ → Bytes
unfolding digits
itoa (pos n) = digits (suc n) n []
itoa (negsuc n) = b'-' ∷ digits (suc (suc n)) (suc n) []
