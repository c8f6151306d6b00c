-- ===== src/Text/Search.antt =====
-- Prefixes, suffixes and substrings.
use mathlib.Core.Option
use mathlib.Core.List.{reverse-append, reverse-reverse}
use reveille.Prelude.{
  ℕ, zero, suc, ◌<◌, ◌≡◌, refl, ap, Bool, true, false, ◌||◌, [], ◌∷◌, ◌++◌, reverse, Option, none,
  some, arith, ◌==◌, if◌then◌else◌, length, drop, Option-cases, inl, inr,
}
use reveille.Text.Chars.{Text}

-- `strip_prefix`
unfoldable pub strip_prefix : Text → Text → Option Text
strip_prefix [] s = some s
strip_prefix (p ∷ ps) [] = none
strip_prefix (p ∷ ps) (c ∷ s) = if p == c then strip_prefix ps s else none

abbrev pub is_some {ℓ} : {A : Type ℓ} → Option A → Bool
is_some none = false
is_some (some a) = true

unfoldable pub starts_with : Text → Text → Bool
unfolding strip_prefix
starts_with p s = is_some (strip_prefix p s)

-- `strip_suffix`
unfoldable pub strip_suffix : Text → Text → Option Text
unfolding strip_prefix
strip_suffix suffix s = Option.map reverse (strip_prefix (reverse suffix) (reverse s))

unfoldable pub ends_with : Text → Text → Bool
unfolding strip_suffix
ends_with suffix s = is_some (strip_suffix suffix s)

-- `find`, and `windows(n).position(..)` of a byte string, for a needle that is not empty.
unfoldable pub find_sub : Text → Text → Option ℕ
unfolding starts_with
find_sub needle [] = none
find_sub needle (c ∷ s) =
    let later = Option.map suc (find_sub needle s) in
    if starts_with needle (c ∷ s) then some 0 else later

-- `contains`
unfoldable pub contains : Text → Text → Bool
unfolding find_sub
contains needle s = is_some (find_sub needle s)

-- `contains` of one character.
abbrev pub contains_char : ℕ → Text → Bool
contains_char c [] = false
contains_char c (x ∷ s) = x == c || contains_char c s

pub strip_prefix-append : (p s : Text) → strip_prefix p (p ++ s) ≡ some s
unfolding strip_prefix
strip_prefix-append [] s = refl
strip_prefix-append (c ∷ p) s = ground (arith, strip_prefix-append p s)

pub append-strip_prefix : (p s r : Text) → strip_prefix p s ≡ some r → s ≡ p ++ r
unfolding strip_prefix
append-strip_prefix [] s r h = ground arith
append-strip_prefix (c ∷ p) [] r h = ground arith
append-strip_prefix (c ∷ p) (x ∷ s) r h = ground (arith, append-strip_prefix p s r)

pub append-starts_with : (p s : Text) → starts_with p s ≡ true → (r : Text) × (s ≡ p ++ r)
unfolding starts_with
append-starts_with p s h = elim (Option-cases (strip_prefix p s)) [
  | inl e ↦ cc (rw (e, starts_with) at h)
  | inr (r, e) ↦ (r, append-strip_prefix p s r e)
]

pub starts_with-append : (p s : Text) → starts_with p (p ++ s) ≡ true
unfolding starts_with
starts_with-append p s = rw (strip_prefix-append p s)

pub strip_suffix-append : (s suffix : Text) → strip_suffix suffix (s ++ suffix) ≡ some s
unfolding strip_suffix
strip_suffix-append s suffix =
    rw (reverse-append s suffix) (rw strip_prefix-append (ap some (reverse-reverse s)))

-- The needle stands at the position that `find` returns.
pub find_sub-starts_with :
    (needle s : Text) (k : ℕ) → find_sub needle s ≡ some k → starts_with needle (drop k s) ≡ true
unfolding find_sub
find_sub-starts_with needle [] k h = ground arith
find_sub-starts_with needle (c ∷ s) zero h = ground arith
find_sub-starts_with needle (c ∷ s) (suc k) h = ground (arith, find_sub-starts_with needle s k)

-- It stands at no earlier place.
pub find_sub_first :
    (needle s : Text) (k j : ℕ)
    → find_sub needle s ≡ some k
    → j < k
    → starts_with needle (drop j s) ≡ false
unfolding find_sub
find_sub_first needle [] k j h l = ground arith
find_sub_first needle (c ∷ s) k zero h l = ground arith
find_sub_first needle (c ∷ s) zero (suc j) h l = ground arith
find_sub_first needle (c ∷ s) (suc k) (suc j) h l = ground (arith, find_sub_first needle s k j)

pub find_sub-lt-length : (needle s : Text) (k : ℕ) → find_sub needle s ≡ some k → k < length s
unfolding find_sub
find_sub-lt-length needle [] k h = ground arith
find_sub-lt-length needle (c ∷ s) zero h = ground arith
find_sub-lt-length needle (c ∷ s) (suc k) h = ground (arith, find_sub-lt-length needle s k)

-- With no occurrence that begins in `a`, the needle after `a` is the first.
pub find_sub-append :
    (n : ℕ) (ns a b : Text)
    → ((j : ℕ) → j < length a → starts_with (n ∷ ns) (drop j (a ++ ((n ∷ ns) ++ b))) ≡ false)
    → find_sub (n ∷ ns) (a ++ ((n ∷ ns) ++ b)) ≡ some (length a)
unfolding find_sub
find_sub-append n ns [] b h = ground (arith, starts_with-append (n ∷ ns) b)
find_sub-append n ns (c ∷ a) b h =
    ground (arith, h 0, find_sub-append n ns a b (λ j l. h (suc j) (omega arith)))

-- The last character decides a suffix of one character.
pub ends_with-concat : (d c : ℕ) (s : Text) → ends_with (d ∷ []) (s ++ (c ∷ [])) ≡ (d == c)
unfolding ends_with strip_suffix strip_prefix
ends_with-concat d c s = rw (reverse-append s (c ∷ [])) (one d c (reverse s))
  where
    one :
        (d c : ℕ) (r : Text)
        → is_some (Option.map reverse (strip_prefix (d ∷ []) (c ∷ r))) ≡ (d == c)
    one d c r = ground arith
