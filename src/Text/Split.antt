-- ===== src/Text/Split.antt =====
-- Splitting a text: at each separator, at the first or the last one, at line ends and at spaces.
use reveille.Prelude.{
  ℕ, ◌≡◌, ◌≢◌, refl, ap, ◌∙◌, Bool, true, false, not, List, [], ◌∷◌, ◌++◌, Option, none, some,
  arith, ◌==◌, if◌then◌else◌, All, any, all, filter, inl, inr, Bool-cases,
}
use reveille.Text.Chars.{Text, is_whitespace, is_empty}

-- Put a character before the first piece.
abbrev pub push_head : ℕ → List Text → List Text
push_head c [] = (c ∷ []) ∷ []
push_head c (p ∷ ps) = (c ∷ p) ∷ ps

-- `split` by a test: every separator starts a new piece, so there is always one piece.
unfoldable pub split_by : (ℕ → Bool) → Text → List Text
split_by p [] = [] ∷ []
split_by p (x ∷ s) = let rest = split_by p s in if p x then [] ∷ rest else push_head x rest

-- `split(c)`
abbrev pub split : ℕ → Text → List Text
split c = split_by (λ x. x == c)

-- `split_whitespace`
unfoldable pub words : Text → List Text
unfolding split_by
words s = filter (λ p. not (is_empty p)) (split_by is_whitespace s)

-- `split_once(c)`
unfoldable pub split_once : ℕ → Text → Option (Text × Text)
split_once c [] = none
split_once c (x ∷ s) =
    let rest : Option (Text × Text) = elim (split_once c s) [
      | none ↦ none
      | some (a, b) ↦ some (x ∷ a, b)
    ] in
    if x == c then some ([], s) else rest

-- `rsplit_once(c)`: a later separator comes first.
unfoldable pub rsplit_once : ℕ → Text → Option (Text × Text)
rsplit_once c [] = none
rsplit_once c (x ∷ s) = elim (rsplit_once c s) [
  | none ↦ if x == c then some ([], s) else none
  | some (a, b) ↦ some (x ∷ a, b)
]

-- A line that a newline ends loses one carriage return before it.
unfoldable pub strip_cr : Text → Text
strip_cr [] = []
strip_cr (c ∷ []) = if c == 13 then [] else c ∷ []
strip_cr (c ∷ d ∷ s) = c ∷ strip_cr (d ∷ s)

line_pieces : List Text → List Text
line_pieces [] = []
line_pieces (last ∷ []) = if is_empty last then [] else last ∷ []
line_pieces (p ∷ q ∷ ps) = strip_cr p ∷ line_pieces (q ∷ ps)

-- `lines`
unfoldable pub lines : Text → List Text
unfolding split_by strip_cr line_pieces
lines s = line_pieces (split b'\n' s)

-- `join`
unfoldable pub join : Text → List Text → Text
join sep [] = []
join sep (p ∷ []) = p
join sep (p ∷ q ∷ ps) = p ++ (sep ++ join sep (q ∷ ps))

-- A piece that holds no separator is split off whole.
pub split_by-append :
    (p : ℕ → Bool) (c : ℕ) (a b : Text)
    → any p a ≡ false
    → p c ≡ true
    → split_by p (a ++ c ∷ b) ≡ a ∷ split_by p b
unfolding split_by
split_by-append p c [] b n h = rw h
split_by-append p c (x ∷ a) b n h = ground (arith, split_by-append p c a b)

pub split_by_single : (p : ℕ → Bool) (a : Text) → any p a ≡ false → split_by p a ≡ a ∷ []
unfolding split_by
split_by_single p [] n = refl
split_by_single p (x ∷ a) n = ground (arith, split_by_single p a)

-- Put before the first piece, a character that is no separator adds none.
All-push_head :
    (p : ℕ → Bool) (x : ℕ) (ps : List Text)
    → p x ≡ false
    → All (λ piece. any p piece ≡ false) ps
    → All (λ piece. any p piece ≡ false) (push_head x ps)
All-push_head p x [] h all = (ground arith, tt)
All-push_head p x (q ∷ ps) h all = (ground (arith, all.0), all.1)

-- No piece holds a separator.
pub split_by-All : (p : ℕ → Bool) (s : Text) → All (λ piece. any p piece ≡ false) (split_by p s)
unfolding split_by
split_by-All p [] = (refl, tt)
split_by-All p (x ∷ s) = elim (Bool-cases (p x)) [
  | inl h ↦ rw h (refl, split_by-All p s)
  | inr h ↦ rw h (All-push_head p x (split_by p s) h (split_by-All p s))
]

split_by-ne-nil : (p : ℕ → Bool) (s : Text) → split_by p s ≢ []
unfolding split_by
split_by-ne-nil p [] e = cc
split_by-ne-nil p (x ∷ s) e = ground (arith, split_by-ne-nil p s)

join-push_head :
    (c x : ℕ) (ps : List Text) → ps ≢ [] → join (c ∷ []) (push_head x ps) ≡ x ∷ join (c ∷ []) ps
unfolding join
join-push_head c x [] h = absurd (h refl)
join-push_head c x (p ∷ []) h = refl
join-push_head c x (p ∷ q ∷ ps) h = refl

join-cons : (c : ℕ) (ps : List Text) → ps ≢ [] → join (c ∷ []) ([] ∷ ps) ≡ c ∷ join (c ∷ []) ps
unfolding join
join-cons c [] h = absurd (h refl)
join-cons c (p ∷ ps) h = refl

-- The pieces, joined by the separator, are the text again.
pub join-split : (c : ℕ) (s : Text) → join (c ∷ []) (split c s) ≡ s
unfolding split_by
join-split c [] = unfold join in refl
join-split c (x ∷ s) = ground (
  arith,
  join-split c s,
  join-push_head c x (split c s) (split_by-ne-nil (λ y. y == c) s),
  join-cons c (split c s) (split_by-ne-nil (λ y. y == c) s),
)

-- `split_once` cuts at the first separator.
pub split_once-append :
    (c : ℕ) (a b : Text) → any (λ x. x == c) a ≡ false → split_once c (a ++ c ∷ b) ≡ some (a, b)
unfolding split_once
split_once-append c [] b n = ground arith
split_once-append c (x ∷ a) b n = ground (arith, split_once-append c a b)

pub split_once-none : (c : ℕ) (a : Text) → any (λ x. x == c) a ≡ false → split_once c a ≡ none
unfolding split_once
split_once-none c [] n = refl
split_once-none c (x ∷ a) n = ground (arith, split_once-none c a)

-- `rsplit_once` cuts at the last one.
pub rsplit_once-none : (c : ℕ) (a : Text) → any (λ x. x == c) a ≡ false → rsplit_once c a ≡ none
unfolding rsplit_once
rsplit_once-none c [] n = refl
rsplit_once-none c (x ∷ a) n = ground (arith, rsplit_once-none c a)

pub rsplit_once-append :
    (c : ℕ) (a b : Text) → any (λ x. x == c) b ≡ false → rsplit_once c (a ++ c ∷ b) ≡ some (a, b)
unfolding rsplit_once
rsplit_once-append c [] b n = ground (arith, rsplit_once-none c b n)
rsplit_once-append c (x ∷ a) b n = ground (arith, rsplit_once-append c a b)

strip_cr-append : (s : Text) (c : ℕ) → (c == 13) ≡ false → strip_cr (s ++ (c ∷ [])) ≡ s ++ (c ∷ [])
unfolding strip_cr
strip_cr-append [] c h = rw h refl
strip_cr-append (x ∷ []) c h = rw h refl
strip_cr-append (x ∷ y ∷ s) c h = ap (◌∷◌ x) (strip_cr-append (y ∷ s) c h)

-- Each line with its newline.
abbrev pub unlines : List Text → Text
unlines [] = []
unlines (line ∷ rest) = line ++ b'\n' ∷ unlines rest

line_pieces-cons :
    (line : Text) (ps : List Text)
    → ps ≢ []
    → line_pieces (line ∷ ps) ≡ strip_cr line ∷ line_pieces ps
unfolding line_pieces
line_pieces-cons line [] h = absurd (h refl)
line_pieces-cons line (p ∷ ps) h = refl

-- A line without a newline or a carriage return at its end.
abbrev pub IsLine : Text → Type 0
IsLine line = (any (λ c. c == b'\n') line ≡ false) × (strip_cr line ≡ line)

pub lines-unlines : (ls : List Text) → All IsLine ls → lines (unlines ls) ≡ ls
unfolding lines split_by line_pieces
lines-unlines [] h = refl
lines-unlines (line ∷ ls) h =
    rw (split_by-append (λ c. c == b'\n') b'\n' line (unlines ls) h.0.0 refl) (
      line_pieces-cons line (split b'\n' (unlines ls))
        (split_by-ne-nil (λ c. c == b'\n') (unlines ls))
      ∙ rw (h.0.1, lines-unlines ls h.1) refl)

-- A text that ends in another character than a carriage return.
pub append-IsLine :
    (s : Text) (c : ℕ)
    → any (λ x. x == b'\n') s ≡ false
    → (c == b'\n') ≡ false
    → (c == 13) ≡ false
    → IsLine (s ++ (c ∷ []))
append-IsLine s c n l r = (no_newline s n, strip_cr-append s c r)
  where
    no_newline :
        (s : Text) → any (λ x. x == b'\n') s ≡ false → any (λ x. x == b'\n') (s ++ (c ∷ [])) ≡ false
    no_newline [] n = ground (arith, l)
    no_newline (x ∷ s) n = ground (arith, no_newline s)
