-- ===== src/Prelude/Options.antt =====
-- The methods of Rust's `Option` that the code chains.
use mathlib.Core.Bool.{Bool, true, false}
use mathlib.Core.Option.{Option, none, some}
use mathlib.Core.Path.{◌≡◌, refl}
use reveille.Prelude.Lists.{OnSome}

module _ {ℓ} {A : Type ℓ} where
  -- `unwrap_or`
  abbrev pub unwrap_or : Option A → A → A
  unwrap_or none d = d
  unwrap_or (some a) d = a

  -- `or_else`, and `or`
  abbrev pub or_else : Option A → Option A → Option A
  or_else none o = o
  or_else (some a) o = some a

  abbrev pub kept_if : Bool → A → Option A
  kept_if true a = some a
  kept_if false a = none

  -- `Option::filter`
  abbrev pub opt_filter : (A → Bool) → Option A → Option A
  opt_filter p none = none
  opt_filter p (some a) = kept_if (p a) a

module _ {ℓ κ} {A : Type ℓ} {B : Type κ} where
  -- `and_then`, and `?` on an option
  abbrev pub and_then : Option A → (A → Option B) → Option B
  and_then none f = none
  and_then (some a) f = f a

  -- `Option::map`
  abbrev pub opt_map : (A → B) → Option A → Option B
  opt_map f none = none
  opt_map f (some a) = some (f a)

  -- `map_or`
  abbrev pub map_or : Option A → B → (A → B) → B
  map_or none b f = b
  map_or (some a) b f = f a

-- What holds of every value that a chain can return.
module _ {ℓ κ λ' μ} {A : Type ℓ} {B : Type κ} (Q : A → Type λ') (P : B → Type μ) where
  pub OnSome-and_then :
      (o : Option A) (f : A → Option B)
      → OnSome Q o
      → ((a : A) → Q a → OnSome P (f a))
      → OnSome P (and_then o f)
  OnSome-and_then none f h k = tt
  OnSome-and_then (some a) f h k = k a h

  pub OnSome-opt_map :
      (f : A → B) (o : Option A) → OnSome Q o → ((a : A) → Q a → P (f a)) → OnSome P (opt_map f o)
  OnSome-opt_map f none h k = tt
  OnSome-opt_map f (some a) h k = k a h

module _ {ℓ} {A : Type ℓ} where
  -- What holds of any value of an option.
  pub OnSome-any : (o : Option A) → OnSome {ℓ, 0} (λ a. Unit) o
  OnSome-any none = tt
  OnSome-any (some a) = tt

  pub OnSome-refl : (o : Option A) → OnSome (λ a. o ≡ some a) o
  OnSome-refl none = tt
  OnSome-refl (some a) = refl

module _ {ℓ κ λ'} {A : Type ℓ} {Q : A → Type κ} {P : A → Type λ'} where
  pub OnSome-map : (o : Option A) → OnSome Q o → ((a : A) → Q a → P a) → OnSome P o
  OnSome-map none h k = tt
  OnSome-map (some a) h k = k a h
