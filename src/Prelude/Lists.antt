-- ===== src/Prelude/Lists.antt =====
-- Lists over the native numbers: length, membership of numbers, and total maps as functions.
use Prim.Native.Nat.{ℕ, zero, suc, ◌+◌, ◌<◌}
use mathlib.Core.Path.{◌≡◌, refl, ap}
use mathlib.Core.Logic.{◌⊎◌, inl, inr}
use mathlib.Core.Bool.{Bool, true, false, ◌||◌}
use mathlib.Core.Option.{Option, none, some}
use mathlib.Core.List.{List, [], ◌∷◌, ◌++◌}
use native.Mathlib.Omega.{arith}
use zhibo.Prelude.Tests.{◌==◌, if◌then◌else◌}

module _ {ℓ} {A : Type ℓ} where
  abbrev pub length : List A → ℕ
  length [] = 0
  length (x ∷ xs) = suc (length xs)

  abbrev pub get_elem? : List A → ℕ → Option A
  get_elem? [] i = none
  get_elem? (x ∷ xs) zero = some x
  get_elem? (x ∷ xs) (suc i) = get_elem? xs i

  -- A write out of bounds changes nothing.
  abbrev pub set : List A → ℕ → A → List A
  set [] i v = []
  set (x ∷ xs) zero v = v ∷ xs
  set (x ∷ xs) (suc i) v = x ∷ set xs i v

  abbrev pub take : ℕ → List A → List A
  take zero xs = []
  take (suc n) [] = []
  take (suc n) (x ∷ xs) = x ∷ take n xs

  abbrev pub drop : ℕ → List A → List A
  drop zero xs = xs
  drop (suc n) [] = []
  drop (suc n) (x ∷ xs) = drop n xs

  abbrev pub replicate : ℕ → A → List A
  replicate zero a = []
  replicate (suc n) a = a ∷ replicate n a

  pub length-append : (xs ys : List A) → length (xs ++ ys) ≡ length xs + length ys
  length-append [] ys = omega arith
  length-append (x ∷ xs) ys = omega (arith, length-append xs ys)

  pub length-replicate : (n : ℕ) (a : A) → length (replicate n a) ≡ n
  length-replicate zero a = refl
  length-replicate (suc n) a = omega (arith, length-replicate n a)

  pub length-set : (xs : List A) (i : ℕ) (v : A) → length (set xs i v) ≡ length xs
  length-set [] i v = refl
  length-set (x ∷ xs) zero v = refl
  length-set (x ∷ xs) (suc i) v = omega (arith, length-set xs i v)

  pub take-append : (xs ys : List A) → take (length xs) (xs ++ ys) ≡ xs
  take-append [] ys = refl
  take-append (x ∷ xs) ys = rw (take-append xs ys)

  pub take-length : (xs : List A) → take (length xs) xs ≡ xs
  take-length [] = refl
  take-length (x ∷ xs) = rw (take-length xs)

  pub drop-append : (xs ys : List A) → drop (length xs) (xs ++ ys) ≡ ys
  drop-append [] ys = refl
  drop-append (x ∷ xs) ys = drop-append xs ys

  -- The element below the length.
  pub get_elem?-lt : (xs : List A) (i : ℕ) → i < length xs → (a : A) × (get_elem? xs i ≡ some a)
  get_elem?-lt [] i h = absurd (omega arith)
  get_elem?-lt (x ∷ xs) zero h = (x, refl)
  get_elem?-lt (x ∷ xs) (suc i) h = get_elem?-lt xs i (omega arith)

  pub get_elem?-set_self :
      (xs : List A) (i : ℕ) (v : A) → i < length xs → get_elem? (set xs i v) i ≡ some v
  get_elem?-set_self [] i v h = absurd (omega arith)
  get_elem?-set_self (x ∷ xs) zero v h = refl
  get_elem?-set_self (x ∷ xs) (suc i) v h = get_elem?-set_self xs i v (omega arith)

  -- What is found after a write was written, or was there.
  pub get_elem?-set :
      (xs : List A) (i j : ℕ) (v : A) {a : A}
      → get_elem? (set xs i v) j ≡ some a
      → ((j ≡ i) × (a ≡ v)) ⊎ (((j == i) ≡ false) × (get_elem? xs j ≡ some a))
  get_elem?-set [] i j v e = cc
  get_elem?-set (x ∷ xs) zero zero v e = inl (refl, ground arith)
  get_elem?-set (x ∷ xs) zero (suc j) v e = inr (ground arith, e)
  get_elem?-set (x ∷ xs) (suc i) zero v e = inr (ground arith, e)
  get_elem?-set (x ∷ xs) (suc i) (suc j) v e = elim (get_elem?-set xs i j v e) [
    | inl (at, is) ↦ inl (ap suc at, is)
    | inr (ne, old) ↦ inr (ground arith, old)
  ]

  -- A write over a write, a write of what is there, and what is read after a write in range.
  pub set-set : (xs : List A) (i : ℕ) (a b : A) → set (set xs i a) i b ≡ set xs i b
  set-set [] i a b = refl
  set-set (x ∷ xs) zero a b = refl
  set-set (x ∷ xs) (suc i) a b = ap (λ ys. x ∷ ys) (set-set xs i a b)

  pub set-own : (xs : List A) (i : ℕ) (a : A) → get_elem? xs i ≡ some a → set xs i a ≡ xs
  set-own [] i a e = refl
  set-own (x ∷ xs) zero a e = cc (e)
  set-own (x ∷ xs) (suc i) a e = ap (λ ys. x ∷ ys) (set-own xs i a e)

  pub get_elem?-set_found :
      (xs : List A) (i : ℕ) (a b : A) → get_elem? xs i ≡ some a → get_elem? (set xs i b) i ≡ some b
  get_elem?-set_found [] i a b e = cc (e)
  get_elem?-set_found (x ∷ xs) zero a b e = refl
  get_elem?-set_found (x ∷ xs) (suc i) a b e = get_elem?-set_found xs i a b e

  pub get_elem?-set_other :
      (xs : List A) (i j : ℕ) (v : A) → (i == j) ≡ false → get_elem? (set xs i v) j ≡ get_elem? xs j
  get_elem?-set_other [] i j v apart = refl
  get_elem?-set_other (x ∷ xs) zero zero v apart = absurd (ground arith)
  get_elem?-set_other (x ∷ xs) zero (suc j) v apart = refl
  get_elem?-set_other (x ∷ xs) (suc i) zero v apart = refl
  get_elem?-set_other (x ∷ xs) (suc i) (suc j) v apart = get_elem?-set_other xs i j v (ground arith)

-- Membership of a number, as a test.
abbrev pub has : ℕ → List ℕ → Bool
has a [] = false
has a (x ∷ xs) = (a == x) || has a xs

infix 40 ◌∈◌ ◌∉◌
abbrev pub ◌∈◌ : ℕ → List ℕ → Type 0
a ∈ xs = has a xs ≡ true

abbrev pub ◌∉◌ : ℕ → List ℕ → Type 0
a ∉ xs = has a xs ≡ false

abbrev pub Distinct : List ℕ → Type 0
Distinct [] = Unit
Distinct (x ∷ xs) = (x ∉ xs) × Distinct xs

pub has-append : (a : ℕ) (xs ys : List ℕ) → has a (xs ++ ys) ≡ (has a xs || has a ys)
has-append a [] ys = refl
has-append a (x ∷ xs) ys = ground (arith, has-append a xs ys)

-- A map from addresses, changed at one of them.
unfoldable pub update {ℓ} : {A : Type ℓ} → (ℕ → A) → ℕ → A → ℕ → A
update f a v b = if b == a then v else f b

pub update_self {ℓ} : {A : Type ℓ} (f : ℕ → A) (a : ℕ) (v : A) → update f a v a ≡ v
unfolding update
update_self f a v = ground arith
