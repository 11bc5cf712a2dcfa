-- ===== src/Prelude/Decimal.antt =====
-- strconv.Atoi for the numerals that the program reads back, and its round trip with Itoa.
use mathlib.Core.Logic.{inl, inr}
use zhibo.Prelude.Tests.{ltb, leb, ltb→lt, Bool-cases, ◌==◌, if◌then◌else◌}
use zhibo.Prelude.Int.{ℤ, pos, negsuc}
use zhibo.Prelude.Text.{Bytes, digits, itoa}
use Prim.Native.Nat.{ℕ, zero, suc, ◌+◌, ◌-◌, ◌*◌, ◌/◌, ◌%◌, ◌<◌}
use mathlib.Core.Path.{◌≡◌, refl, ap, ◌∙◌, sym}
use mathlib.Core.Bool.{false, ◌&&◌}
use mathlib.Core.Option.{Option, none, some}
use mathlib.Core.List.{[], ◌∷◌}
use native.Mathlib.Omega.{arith}

-- The value of the digits behind an accumulator; `none` on any other byte.
unfoldable pub read_digits : ℕ → Bytes → Option ℕ
read_digits acc [] = some acc
read_digits acc (c ∷ s) =
    let rest = read_digits (acc * 10 + (c - 48)) s in if leb 48 c && leb c 57 then rest else none

abbrev pub positive : Option ℕ → ℤ
positive none = pos 0
positive (some n) = pos n

abbrev pub negative : Option ℕ → ℤ
negative (some (suc n)) = negsuc n
negative _ = pos 0

-- The number that Atoi gives; 0 beside its error. Values beyond an int64 are not clamped.
unfoldable pub atoi : Bytes → ℤ
unfolding read_digits
atoi [] = pos 0
atoi (c ∷ s) = if c == b'-' then negative (read_digits 0 s) else positive (read_digits 0 (c ∷ s))

read_digit :
    (a d : ℕ) (out : Bytes) → d < 10 → read_digits a ((d + 48) ∷ out) ≡ read_digits (a * 10 + d) out
unfolding read_digits
read_digit a d out h = let e : d + 48 - 48 ≡ d = omega arith in rw e (ground arith)

-- What is read on behind the digits of a number.
read_digits-digits :
    (f n : ℕ) (out : Bytes)
    → n < f
    → (p : ℕ) × ((a : ℕ) → read_digits a (digits f n out) ≡ read_digits (a * p + n) out)
unfolding digits
read_digits-digits zero n out h = absurd (omega arith)
read_digits-digits (suc f) n out h = elim (Bool-cases (ltb n 10)) [
  | inl small ↦ (10, λ a. rw small (read_digit a n out (ltb→lt n 10 small)))
  | inr large ↦
      let (p, ih) = read_digits-digits f (n / 10) ((n % 10 + 48) ∷ out) (ground arith) in
      (
        p * 10,
        λ a. rw large (
            ih a
            ∙ read_digit (a * p + n / 10) (n % 10) out (omega arith)
            ∙ ap (λ (k : ℕ). read_digits k out) (omega arith)),
      )
]

digits_head :
    (f n : ℕ) (out : Bytes)
    → n < f
    → (c : ℕ) × (s : Bytes) × (digits f n out ≡ c ∷ s) × ((c == b'-') ≡ false)
unfolding digits
digits_head zero n out h = absurd (omega arith)
digits_head (suc f) n out h = elim (Bool-cases (ltb n 10)) [
  | inl small ↦ (n + 48, out, rw small refl, ground arith)
  | inr large ↦
      let (c, s, e, ne) = digits_head f (n / 10) ((n % 10 + 48) ∷ out) (ground arith) in
      (c, s, rw large e, ne)
]

read_all : (n : ℕ) → read_digits 0 (digits (suc n) n []) ≡ some n
unfolding read_digits
read_all n =
    let (p, e) = read_digits-digits (suc n) n [] (omega arith) in e 0 ∙ ap some (omega arith)

atoi-cons :
    (c : ℕ) (s : Bytes) → (c == b'-') ≡ false → atoi (c ∷ s) ≡ positive (read_digits 0 (c ∷ s))
unfolding atoi
atoi-cons c s ne = rw ne

-- Atoi reads back what Itoa wrote.
pub atoi-itoa : (a : ℤ) → atoi (itoa a) ≡ a
unfolding itoa
atoi-itoa (pos n) =
    let (c, s, e, ne) = digits_head (suc n) n [] (omega arith) in
    ap atoi e
    ∙ atoi-cons c s ne
    ∙ ap (λ (b : Bytes). positive (read_digits 0 b)) (sym e)
    ∙ ap positive (read_all n)
atoi-itoa (negsuc n) = unfold atoi in ap negative (read_all (suc n))
