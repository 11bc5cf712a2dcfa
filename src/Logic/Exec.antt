-- ===== src/Logic/Exec.antt =====
-- Handlers that change the stores and may return an error. What was written before an error stays.
use zhibo.Prelude.{Bytes, ◌≡◌}

pub data Result {ℓ} (A : Type ℓ) : Type ℓ where
  ok : A → Result A
  err : Bytes → Result A

abbrev pub Exec {ℓ} : Type ℓ → Type ℓ → Type ℓ
Exec S A = S → Result A × S

module _ {ℓ} {S A : Type ℓ} where
  abbrev pub pure : A → Exec S A
  pure a s = (ok a, s)

  abbrev pub raise : Bytes → Exec S A
  raise e s = (err e, s)

module _ {ℓ} {S A B : Type ℓ} where
  abbrev pub and_then : Result A × S → (A → Exec S B) → Result B × S
  and_then (ok a, s) f = f a s
  and_then (err e, s) f = (err e, s)

  result_eq : (a b : A) (f : A → Exec S B) (s : S) → ok a ≡ ok b → f a s ≡ f b s
  result_eq a b f s e = cc

  -- A handler whose first part returned `a` goes on with it.
  pub and_then-ok :
      (r : Result A × S) (a : A) (f : A → Exec S B) → r.0 ≡ ok a → and_then r f ≡ f a r.1
  and_then-ok (ok b, s) a f e = result_eq b a f s e
  and_then-ok (err x, s) a f e = cc

  infixl 10 ◌>>=◌ ◌>>◌
  abbrev pub ◌>>=◌ : Exec S A → (A → Exec S B) → Exec S B
  m >>= f = λ s. and_then (m s) f

  abbrev pub ◌>>◌ : Exec S A → Exec S B → Exec S B
  m >> n = m >>= λ _. n
