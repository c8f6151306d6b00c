-- ===== src/TreeMap.antt =====
-- `BTreeMap<String, V>`: an association list in the order of its keys, which is the order of
-- iteration.
use Prim.Native.Nat.{compare, Ordering}
use reveille.Prelude.{
  ◌≡◌, refl, ◌≢◌, Bool, true, false, List, [], ◌∷◌, Option, none, some, arith, if◌then◌else◌, All,
}
use reveille.Text.{Text, text_eq, text_eq_iff}

-- The order of texts: by code points, which is the order of their bytes in UTF-8.
unfoldable pub text_compare : Text → Text → Ordering
text_compare [] [] = Ordering.eq
text_compare [] (y ∷ ys) = Ordering.lt
text_compare (x ∷ xs) [] = Ordering.gt
text_compare (x ∷ xs) (y ∷ ys) =
    let rest = text_compare xs ys in
    elim (compare x y) [
      | Ordering.lt ↦ Ordering.lt
      | Ordering.gt ↦ Ordering.gt
      | Ordering.eq ↦ rest
    ]

unfoldable pub text_ltb : Text → Text → Bool
unfolding text_compare
text_ltb a b = elim (text_compare a b) [ Ordering.lt ↦ true | _ ↦ false ]

pub text_compare-eq : (a b : Text) → text_compare a b ≡ Ordering.eq → a ≡ b
unfolding text_compare
text_compare-eq [] [] h = refl
text_compare-eq [] (y ∷ b) h = ground arith
text_compare-eq (x ∷ a) [] h = ground arith
text_compare-eq (x ∷ a) (y ∷ b) h = ground (arith, text_compare-eq a b)

pub text_compare_refl : (a : Text) → text_compare a a ≡ Ordering.eq
unfolding text_compare
text_compare_refl [] = refl
text_compare_refl (x ∷ a) = ground (arith, text_compare_refl a)

pub text_ltb_trans :
    (a b c : Text) → text_ltb a b ≡ true → text_ltb b c ≡ true → text_ltb a c ≡ true
unfolding text_ltb
text_ltb_trans [] [] c h k = ground arith
text_ltb_trans [] (y ∷ b) [] h k = ground arith
text_ltb_trans [] (y ∷ b) (z ∷ c) h k = refl
text_ltb_trans (x ∷ a) [] c h k = ground arith
text_ltb_trans (x ∷ a) (y ∷ b) [] h k = ground arith
text_ltb_trans (x ∷ a) (y ∷ b) (z ∷ c) h k = ground (arith, text_ltb_trans a b c)

pub text_ltb_flip : (a b : Text) → text_compare a b ≡ Ordering.gt → text_ltb b a ≡ true
unfolding text_ltb
text_ltb_flip [] [] h = ground arith
text_ltb_flip [] (y ∷ b) h = ground arith
text_ltb_flip (x ∷ a) [] h = refl
text_ltb_flip (x ∷ a) (y ∷ b) h = ground (arith, text_ltb_flip a b)

pub text_ltb-compare : (a b : Text) → text_compare a b ≡ Ordering.lt → text_ltb a b ≡ true
unfolding text_ltb
text_ltb-compare a b h = ground arith

module _ {ℓ} {V : Type ℓ} where
  unfoldable pub lookup : Text → List (Text × V) → Option V
  lookup k [] = none
  lookup k ((j, v) ∷ m) = if text_eq k j then some v else lookup k m

  -- Where the new binding goes, beside the binding met and the rest that has it already.
  place : Ordering → Text → V → Text × V → List (Text × V) → List (Text × V) → List (Text × V)
  place Ordering.lt k v met m rest = (k, v) ∷ met ∷ m
  place Ordering.eq k v met m rest = (k, v) ∷ m
  place Ordering.gt k v met m rest = met ∷ rest

  -- `insert`, which replaces the value of a key that is there.
  unfoldable pub insert : Text → V → List (Text × V) → List (Text × V)
  unfolding text_compare place
  insert k v [] = (k, v) ∷ []
  insert k v ((j, w) ∷ m) = place (text_compare k j) k v (j, w) m (insert k v m)

  -- Keys ascend, so no key stands twice.
  abbrev pub IsSorted : List (Text × V) → Type 0
  IsSorted [] = Unit
  IsSorted ((k, v) ∷ m) = All (λ e. text_ltb k e.0 ≡ true) m × IsSorted m

module _ {ℓ} {V : Type ℓ} where
  lookup-place :
      (o : Ordering) (j k i : Text) (v w : V) (m rest : List (Text × V))
      → text_compare k i ≡ o
      → lookup j rest ≡ (if text_eq j k then some v else lookup j m)
      → lookup j (place o k v (i, w) m rest)
        ≡ (if text_eq j k then some v else lookup j ((i, w) ∷ m))
  unfolding lookup place
  lookup-place Ordering.lt j k i v w m rest c e = refl
  lookup-place Ordering.eq j k i v w m rest c e =
      ground (arith, text_compare-eq k i c, text_eq_iff j k, text_eq_iff j i)
  lookup-place Ordering.gt j k i v w m rest c e =
      ground (arith, text_eq_iff j k, text_eq_iff j i, text_compare_refl k)

  pub lookup-insert :
      (j k : Text) (v : V) (m : List (Text × V))
      → lookup j (insert k v m) ≡ (if text_eq j k then some v else lookup j m)
  unfolding insert lookup
  lookup-insert j k v [] = refl
  lookup-insert j k v ((i, w) ∷ m) =
      lookup-place (text_compare k i) j k i v w m (insert k v m) refl (lookup-insert j k v m)

  Below : Text → List (Text × V) → Type 0
  Below i = All (λ e. text_ltb i e.0 ≡ true)

  All-place :
      (o : Ordering) (i k : Text) (v : V) (met : Text × V) (m rest : List (Text × V))
      → text_ltb i k ≡ true
      → Below i (met ∷ m)
      → Below i rest
      → Below i (place o k v met m rest)
  unfolding place Below
  All-place Ordering.lt i k v met m rest h a r = (h, a)
  All-place Ordering.eq i k v met m rest h a r = (h, a.1)
  All-place Ordering.gt i k v met m rest h a r = (a.0, r)

  All-insert :
      (i k : Text) (v : V) (m : List (Text × V))
      → text_ltb i k ≡ true
      → Below i m
      → Below i (insert k v m)
  unfolding insert Below
  All-insert i k v [] h a = (h, tt)
  All-insert i k v ((j, w) ∷ m) h a =
      All-place (text_compare k j) i k v (j, w) m (insert k v m) h a (All-insert i k v m h a.1)

  Below-trans : (k i : Text) (m : List (Text × V)) → text_ltb k i ≡ true → Below i m → Below k m
  unfolding Below
  Below-trans k i [] h a = tt
  Below-trans k i (e ∷ m) h a = (text_ltb_trans k i e.0 h a.0, Below-trans k i m h a.1)

  IsSorted-place :
      (o : Ordering) (k i : Text) (v w : V) (m rest : List (Text × V))
      → text_compare k i ≡ o
      → IsSorted ((i, w) ∷ m)
      → IsSorted rest
      → (text_ltb i k ≡ true → Below i rest)
      → IsSorted (place o k v (i, w) m rest)
  unfolding place Below
  IsSorted-place Ordering.lt k i v w m rest c s r b =
      ((text_ltb-compare k i c, Below-trans k i m (text_ltb-compare k i c) s.0), s)
  IsSorted-place Ordering.eq k i v w m rest c s r b = (rw (text_compare-eq k i c) s.0, s.1)
  IsSorted-place Ordering.gt k i v w m rest c s r b = (b (text_ltb_flip k i c), r)

  -- Insertion keeps the order of the keys.
  pub insert-IsSorted :
      (k : Text) (v : V) (m : List (Text × V)) → IsSorted m → IsSorted (insert k v m)
  unfolding insert Below
  insert-IsSorted k v [] s = (tt, tt)
  insert-IsSorted k v ((i, w) ∷ m) s =
      IsSorted-place (text_compare k i) k i v w m (insert k v m) refl s (insert-IsSorted k v m s.1)
        (λ h. All-insert i k v m h s.0)

pub text_ltb_irrefl : (a : Text) → text_ltb a a ≡ false
unfolding text_ltb
text_ltb_irrefl a = rw (text_compare_refl a, text_ltb) refl

-- Of two different texts one is below the other.
pub text_ltb_total : (a b : Text) → a ≢ b → text_ltb a b ≡ false → text_ltb b a ≡ true
text_ltb_total a b d h = of_order (text_compare a b) refl
  where
    of_order : (o : Ordering) → text_compare a b ≡ o → text_ltb b a ≡ true
    of_order Ordering.lt e = cc (text_ltb-compare a b e)
    of_order Ordering.eq e = absurd (d (text_compare-eq a b e))
    of_order Ordering.gt e = text_ltb_flip a b e
