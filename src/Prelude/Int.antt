-- ===== src/Prelude/Int.antt =====
-- Go's `int`, as an integer. The program's integers are identifiers and counters.
use Prim.Native.Nat.{ℕ, zero, suc}
use mathlib.Core.Path.{◌≡◌}
use mathlib.Core.Logic.{◌↔◌, ◌≢◌, inl, inr}
use mathlib.Core.Bool.{Bool, true, false}
use native.Mathlib.Omega.{arith}
use zhibo.Prelude.Tests.{◌==◌, Bool-cases, if◌then◌else◌}

-- `negsuc n` is -(n + 1).
pub data ℤ : Type 0 where
  pos : ℕ → ℤ
  negsuc : ℕ → ℤ

abbrev pub int_eq : ℤ → ℤ → Bool
int_eq (pos a) (pos b) = a == b
int_eq (pos a) (negsuc b) = false
int_eq (negsuc a) (pos b) = false
int_eq (negsuc a) (negsuc b) = a == b

pub int_eq_iff : (a b : ℤ) → (int_eq a b ≡ true) ↔ (a ≡ b)
int_eq_iff a b = ground arith

pub int_eq_self : (a : ℤ) → int_eq a a ≡ true
int_eq_self a = ground arith

pub int_ne : (a b : ℤ) → a ≢ b → int_eq a b ≡ false
int_ne a b ne = elim (Bool-cases (int_eq a b)) [
  | inl e ↦ absurd (ne ((int_eq_iff a b).0 e))
  | inr e ↦ e
]

-- a++ and a--
abbrev pub inc : ℤ → ℤ
inc (pos n) = pos (suc n)
inc (negsuc zero) = pos 0
inc (negsuc (suc n)) = negsuc n

abbrev pub dec : ℤ → ℤ
dec (pos zero) = negsuc 0
dec (pos (suc n)) = pos n
dec (negsuc n) = negsuc (suc n)

-- a <= 0
abbrev pub is_nonpos : ℤ → Bool
is_nonpos (pos zero) = true
is_nonpos (pos (suc n)) = false
is_nonpos (negsuc n) = true

-- A map keyed by integers, changed at one key.
unfoldable pub update_key {ℓ} : {A : Type ℓ} → (ℤ → A) → ℤ → A → ℤ → A
update_key f a v b = if int_eq b a then v else f b
