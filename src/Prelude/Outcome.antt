-- ===== src/Prelude/Outcome.antt =====
-- Rust's `Result`, with `?` as the bind of a do block.
use mathlib.Core.Logic.{◌⊎◌, inl, inr}
use mathlib.Core.Option.{Option, none, some}
use mathlib.Core.Path.{◌≡◌, refl}

pub data Result {ℓ} (E : Type ℓ) (A : Type ℓ) : Type ℓ where
  ok : A → Result E A
  err : E → Result E A

infixl 5 ◌>>=◌ ◌>>◌
abbrev pub ◌>>=◌ {ℓ} : {E A B : Type ℓ} → Result E A → (A → Result E B) → Result E B
ok a >>= f = f a
err e >>= f = err e

abbrev pub ◌>>◌ {ℓ} : {E A B : Type ℓ} → Result E A → Result E B → Result E B
m >> k = m >>= λ _. k

module _ {ℓ} {E A : Type ℓ} where
  -- `ok_or`
  abbrev pub ok_or : Option A → E → Result E A
  ok_or none e = err e
  ok_or (some a) e = ok a

  pub Result-cases : (r : Result E A) → ((a : A) × (r ≡ ok a)) ⊎ ((e : E) × (r ≡ err e))
  Result-cases (ok a) = inl (a, refl)
  Result-cases (err e) = inr (e, refl)

-- A chain succeeds only if its first step does, with a value from which the next step succeeds.
module _ {ℓ} {E A B : Type ℓ} where
  pub bind-eq-ok :
      (first : Result E A) (next : A → Result E B) {result : B}
      → first >>= next ≡ ok result
      → (value : A) × (first ≡ ok value) × (next value ≡ ok result)
  bind-eq-ok (err failure) next done = cc
  bind-eq-ok (ok value) next done = (value, refl, done)

-- A predicate of what a success returns.
abbrev pub OnOk {ℓ κ} : {E A : Type ℓ} → (A → Type κ) → Result E A → Type κ
OnOk P (ok a) = P a
OnOk P (err e) = Unit

module _ {ℓ κ} {E A B : Type ℓ} (P : B → Type κ) where
  pub OnOk-bind :
      (m : Result E A) (f : A → Result E B) → ((a : A) → OnOk P (f a)) → OnOk P (m >>= f)
  OnOk-bind (ok a) f h = h a
  OnOk-bind (err e) f h = tt

module _ {ℓ κ λ'} {E A B : Type ℓ} (Q : A → Type κ) (P : B → Type λ') where
  pub OnOk-chain :
      (m : Result E A) (f : A → Result E B)
      → OnOk Q m
      → ((a : A) → Q a → OnOk P (f a))
      → OnOk P (m >>= f)
  OnOk-chain (ok a) f q h = h a q
  OnOk-chain (err e) f q h = tt
