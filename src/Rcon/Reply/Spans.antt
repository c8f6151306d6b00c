-- ===== src/Rcon/Reply/Spans.antt =====
-- The spans of a line are its words.
use reveille.Prelude.{
  ℕ, ◌+◌, ◌-◌, ◌≡◌, refl, sym, ap, ◌∙◌, true, false, [], ◌∷◌, ◌++◌, Option, none, some, length,
  take, any, arith, map, append_assoc, append-nil, take-length, drop-length, length-append,
  any-append, Bool-cases, inl, inr,
}
use reveille.Text.{Text, is_whitespace}
use reveille.Text.Split.{words, split_by-append, split_by_single}
use reveille.Rcon.Reply.{slice, spans_loop, token_spans}

-- The piece of a line between what stands before and after it.
slice-middle :
    (before word rest : Text)
    → slice (before ++ (word ++ rest)) (length before, length before + length word) ≡ word
slice-middle before word rest =
    let width : length before + length word - length before ≡ length word = omega arith in
    rw width (ap (take (length word)) (drop-length before (word ++ rest)) ∙ take-length word rest)

words-space : (c : ℕ) (s : Text) → is_whitespace c ≡ true → words (c ∷ s) ≡ words s
unfolding words
words-space c s h = rw (split_by-append is_whitespace c [] s refl h) refl

words-append :
    (b : ℕ) (w : Text) (c : ℕ) (s : Text)
    → any is_whitespace (b ∷ w) ≡ false
    → is_whitespace c ≡ true
    → words ((b ∷ w) ++ c ∷ s) ≡ (b ∷ w) ∷ words s
unfolding words
words-append b w c s n h = rw (split_by-append is_whitespace c (b ∷ w) s n h) refl

words_single : (b : ℕ) (w : Text) → any is_whitespace (b ∷ w) ≡ false → words (b ∷ w) ≡ (b ∷ w) ∷ []
unfolding words
words_single b w n = rw (split_by_single is_whitespace (b ∷ w) n) refl

none_words : [] ≡ words []
unfolding words
none_words = refl

-- Where the open token starts, if it has a character.
start_of : Text → ℕ → Option ℕ
start_of [] n = none
start_of (b ∷ w) n = some n

-- The rest of a line's loop, with the token `w` open behind `before`.
Walks : Text → Text → Text → Text → ℕ → Type 0
Walks line before w rest index =
    map (slice line) (spans_loop rest index (start_of w (length before))) ≡ words (w ++ rest)

spans_loop-Walks :
    (line before w rest : Text) (index : ℕ)
    → line ≡ before ++ (w ++ rest)
    → any is_whitespace w ≡ false
    → index ≡ length before + length w
    → Walks line before w rest index
unfolding Walks spans_loop start_of
spans_loop-Walks line before [] [] index e n i = none_words
spans_loop-Walks line before (b ∷ w) [] index e n i =
    ap (λ word. word ∷ []) (rw i (rw e (slice-middle before (b ∷ w) [])))
    ∙ sym (words_single b w n)
    ∙ ap words (sym (append-nil (b ∷ w)))
spans_loop-Walks line before [] (c ∷ rest) index e n i = elim (Bool-cases (is_whitespace c)) [
  | inl space ↦ rw space (
      spans_loop-Walks line (before ++ c ∷ []) [] rest (index + 1)
        (e ∙ sym (append_assoc before (c ∷ []) rest)) refl
        (omega (arith, i, length-append before (c ∷ [])))
      ∙ sym (words-space c rest space))
  | inr letter ↦ rw letter (
      ap (λ n. map (slice line) (spans_loop rest (index + 1) (some n))) (omega (arith, i))
      ∙ spans_loop-Walks line before (c ∷ []) rest (index + 1) e (ground (arith, letter))
          (omega (arith, i)))
]
spans_loop-Walks line before (b ∷ w) (c ∷ rest) index e n i = elim (Bool-cases (is_whitespace c)) [
  | inl space ↦
      let past : line ≡ (before ++ ((b ∷ w) ++ c ∷ [])) ++ rest =
        e
        ∙ ap (◌++◌ before) (sym (append_assoc (b ∷ w) (c ∷ []) rest))
        ∙ sym (append_assoc before ((b ∷ w) ++ c ∷ []) rest) in
      rw space (
        ap (◌∷◌ (slice line (length before, index))) (
          spans_loop-Walks line (before ++ ((b ∷ w) ++ c ∷ [])) [] rest (index + 1) past refl (
            omega
              (arith, i, length-append before ((b ∷ w) ++ c ∷ []), length-append (b ∷ w) (c ∷ []))))
        ∙ ap (λ word. word ∷ words rest) (rw i (rw e (slice-middle before (b ∷ w) (c ∷ rest))))
        ∙ sym (words-append b w c rest n space))
  | inr letter ↦
      let longer : line ≡ before ++ (((b ∷ w) ++ c ∷ []) ++ rest) =
        e ∙ ap (◌++◌ before) (sym (append_assoc (b ∷ w) (c ∷ []) rest)) in
      rw letter (
        spans_loop-Walks line before ((b ∷ w) ++ c ∷ []) rest (index + 1) longer
          (ground (arith, any-append is_whitespace (b ∷ w) (c ∷ []), n, letter))
          (omega (arith, i, length-append (b ∷ w) (c ∷ [])))
        ∙ ap words (append_assoc (b ∷ w) (c ∷ []) rest))
]

-- What the positions cut out of a line are its words: the line's pieces between white space.
pub token_spans-words : (line : Text) → map (slice line) (token_spans line) ≡ words line
unfolding token_spans
token_spans-words line = unfold Walks start_of in spans_loop-Walks line [] [] line 0 refl refl refl
