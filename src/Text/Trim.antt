-- ===== src/Text/Trim.antt =====
-- Trimming a text at its ends.
use reveille.Prelude.{
  ◌&&◌, ap, ℕ, ◌≤◌, ◌≡◌, refl, Bool, true, false, not, [], ◌∷◌, ◌++◌, map, arith, if◌then◌else◌,
  all, length,
}
use reveille.Text.Chars.{Text, is_whitespace}

-- `trim_start_matches`, `trim_end_matches` and `trim`.
unfoldable pub trim_start_by : (ℕ → Bool) → Text → Text
trim_start_by p [] = []
trim_start_by p (c ∷ s) = if p c then trim_start_by p s else c ∷ s

-- `c` before a trimmed rest: it is dropped with an empty rest only.
trim_end_step : Bool → ℕ → Text → Text
trim_end_step true c [] = []
trim_end_step drops c s = c ∷ s

unfoldable pub trim_end_by : (ℕ → Bool) → Text → Text
unfolding trim_end_step
trim_end_by p [] = []
trim_end_by p (c ∷ s) = trim_end_step (p c) c (trim_end_by p s)

unfoldable pub trim_by : (ℕ → Bool) → Text → Text
unfolding trim_start_by trim_end_by
trim_by p s = trim_end_by p (trim_start_by p s)

abbrev pub trim : Text → Text
trim = trim_by is_whitespace

all-trim_start_by : (p q : ℕ → Bool) (s : Text) → all p s ≡ true → all p (trim_start_by q s) ≡ true
unfolding trim_start_by
all-trim_start_by p q [] h = refl
all-trim_start_by p q (c ∷ s) h = ground (arith, all-trim_start_by p q s)

all-trim_end_step :
    (p : ℕ → Bool) (b : Bool) (c : ℕ) (s : Text)
    → p c ≡ true
    → all p s ≡ true
    → all p (trim_end_step b c s) ≡ true
unfolding trim_end_step
all-trim_end_step p true c [] h k = refl
all-trim_end_step p true c (d ∷ s) h k = ground arith
all-trim_end_step p false c s h k = ground arith

all-trim_end_by : (p q : ℕ → Bool) (s : Text) → all p s ≡ true → all p (trim_end_by q s) ≡ true
unfolding trim_end_by
all-trim_end_by p q [] h = refl
all-trim_end_by p q (c ∷ s) h =
    all-trim_end_step p (q c) c (trim_end_by q s) (ground arith)
      (all-trim_end_by p q s (ground arith))

-- Trimming keeps what holds of every character.
pub all-trim_by : (p q : ℕ → Bool) (s : Text) → all p s ≡ true → all p (trim_by q s) ≡ true
unfolding trim_by
all-trim_by p q s h = all-trim_end_by p q (trim_start_by q s) (all-trim_start_by p q s h)

length-trim_start_by : (q : ℕ → Bool) (s : Text) → length (trim_start_by q s) ≤ length s
unfolding trim_start_by
length-trim_start_by q [] = omega arith
length-trim_start_by q (c ∷ s) = ground (arith, length-trim_start_by q s)

length-trim_end_step : (b : Bool) (c : ℕ) (s : Text) → length (trim_end_step b c s) ≤ length (c ∷ s)
unfolding trim_end_step
length-trim_end_step true c [] = omega arith
length-trim_end_step true c (d ∷ s) = omega arith
length-trim_end_step false c s = omega arith

length-trim_end_by : (q : ℕ → Bool) (s : Text) → length (trim_end_by q s) ≤ length s
unfolding trim_end_by
length-trim_end_by q [] = omega arith
length-trim_end_by q (c ∷ s) =
    omega (arith, length-trim_end_by q s, length-trim_end_step (q c) c (trim_end_by q s))

pub length-trim_by : (q : ℕ → Bool) (s : Text) → length (trim_by q s) ≤ length s
unfolding trim_by
length-trim_by q s =
    omega (arith, length-trim_start_by q s, length-trim_end_by q (trim_start_by q s))

-- A text that holds nothing to trim is left alone.
pub trim_end_by_none :
    (q : ℕ → Bool) (s : Text) → all (λ c. not (q c)) s ≡ true → trim_end_by q s ≡ s
unfolding trim_end_by trim_end_step
trim_end_by_none q [] h = refl
trim_end_by_none q (c ∷ s) h = ground (arith, trim_end_by_none q s)

module _ (q : ℕ → Bool) (f : ℕ → ℕ) (same : (c : ℕ) → q (f c) ≡ q c) where
  trim_start_by-map : (s : Text) → trim_start_by q (map f s) ≡ map f (trim_start_by q s)
  unfolding trim_start_by
  trim_start_by-map [] = refl
  trim_start_by-map (c ∷ s) = ground (arith, same c, trim_start_by-map s)

  trim_end_step-map :
      (b : Bool) (c : ℕ) (s : Text) → trim_end_step b (f c) (map f s) ≡ map f (trim_end_step b c s)
  unfolding trim_end_step
  trim_end_step-map true c [] = refl
  trim_end_step-map true c (d ∷ s) = refl
  trim_end_step-map false c s = refl

  trim_end_by-map : (s : Text) → trim_end_by q (map f s) ≡ map f (trim_end_by q s)
  unfolding trim_end_by
  trim_end_by-map [] = refl
  trim_end_by-map (c ∷ s) =
      rw (same c) (rw (trim_end_by-map s) (trim_end_step-map (q c) c (trim_end_by q s)))

  -- Trimming commutes with a change of characters that keeps the test.
  pub trim_by-map : (s : Text) → trim_by q (map f s) ≡ map f (trim_by q s)
  unfolding trim_by
  trim_by-map s = rw (trim_start_by-map s) (trim_end_by-map (trim_start_by q s))

trim_end_step_append :
    (b : Bool) (d c : ℕ) (s : Text) → trim_end_step b d (s ++ c ∷ []) ≡ d ∷ (s ++ c ∷ [])
unfolding trim_end_step
trim_end_step_append true d c [] = refl
trim_end_step_append true d c (x ∷ s) = refl
trim_end_step_append false d c s = refl

pub trim_end_by-concat :
    (q : ℕ → Bool) (s : Text) (c : ℕ) → q c ≡ false → trim_end_by q (s ++ c ∷ []) ≡ s ++ c ∷ []
unfolding trim_end_by
trim_end_by-concat q [] c h = rw h (unfold trim_end_step in refl)
trim_end_by-concat q (d ∷ s) c h =
    rw (trim_end_by-concat q s c h) (trim_end_step_append (q d) d c s)

-- A text whose first and last characters stay is left alone.
pub trim_by_ends :
    (q : ℕ → Bool) (b : ℕ) (s : Text) (c : ℕ)
    → q b ≡ false
    → q c ≡ false
    → trim_by q (b ∷ (s ++ c ∷ [])) ≡ b ∷ (s ++ c ∷ [])
unfolding trim_by trim_start_by
trim_by_ends q b s c hb hc = rw hb (trim_end_by-concat q (b ∷ s) c hc)

-- A last character that is trimmed makes no difference.
pub trim_end_by-drop :
    (q : ℕ → Bool) (s : Text) (c : ℕ) → q c ≡ true → trim_end_by q (s ++ c ∷ []) ≡ trim_end_by q s
unfolding trim_end_by
trim_end_by-drop q [] c h = rw h (unfold trim_end_step in refl)
trim_end_by-drop q (d ∷ s) c h = ap (trim_end_step (q d) d) (trim_end_by-drop q s c h)

pub trim_by_none : (q : ℕ → Bool) (s : Text) → all (λ c. not (q c)) s ≡ true → trim_by q s ≡ s
unfolding trim_by trim_start_by
trim_by_none q [] h = trim_end_by_none q [] h
trim_by_none q (c ∷ s) h = rw (start (q c) h) (trim_end_by_none q (c ∷ s) h)
  where
    start : (b : Bool) → (not b && all (λ c. not (q c)) s) ≡ true → b ≡ false
    start b h = ground arith
