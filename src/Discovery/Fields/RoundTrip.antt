-- ===== src/Discovery/Fields/RoundTrip.antt =====
-- Fields written as `\key\value` are read back, up to the end or the `\final\` marker.
use reveille.Prelude.{
  ℕ, ◌≡◌, refl, ap, ◌∙◌, Bool, false, List, [], ◌∷◌, ◌++◌, append-nil, Result, ok, err, arith, ◌==◌,
  any, All, inl, inr, Bool-cases,
}
use reveille.Text.{Text, codes, is_empty, text_eq, starts_with}
use reveille.Text.Split.{split, split_by, split_by-append, split_by_single}
use reveille.TreeMap.{insert, IsSorted, insert-IsSorted}
use reveille.Discovery.Master.{ParseError}
use reveille.Discovery.Fields.{FieldMap, final, fields_loop, after_first, parse_backslash_text}

abbrev pub backslash : ℕ → Bool
backslash c = c == b'\\'

-- A key or value that does not break out of its field.
abbrev pub IsPlain : Text → Type 0
IsPlain s = any backslash s ≡ false

-- Fields that the format can carry: keys that are neither empty nor the end marker.
abbrev pub Writable : List (Text × Text) → Type 0
Writable =
    All (λ f. IsPlain f.0 × IsPlain f.1 × (is_empty f.0 ≡ false) × (text_eq f.0 final ≡ false))

-- `\key\value…` before a rest.
abbrev pub write_fields : List (Text × Text) → Text → Text
write_fields [] rest = rest
write_fields (f ∷ fs) rest = b'\\' ∷ (f.0 ++ b'\\' ∷ (f.1 ++ write_fields fs rest))

-- The last value written for each key.
abbrev pub insert_all : FieldMap → List (Text × Text) → FieldMap
insert_all m [] = m
insert_all m (f ∷ fs) = insert_all (insert f.0 f.1 m) fs

-- The end of a reply: nothing, or the end marker and whatever comes behind it.
pub data IsEnd : Text → Type 0 where
  nothing : IsEnd []
  marker : (rest : Text) → IsEnd (codes "\\final\\" ++ rest)
  bare_marker : IsEnd (codes "\\final")

-- The pieces of what is written, with those of the rest behind them.
abbrev pieces : List (Text × Text) → List Text → List Text
pieces [] rest = rest
pieces (f ∷ fs) rest = f.0 ∷ f.1 ∷ pieces fs rest

fields_loop-pieces :
    (fs : List (Text × Text)) (m : FieldMap) (rest : List Text)
    → Writable fs
    → fields_loop m (pieces fs rest) ≡ fields_loop (insert_all m fs) rest
unfolding fields_loop
fields_loop-pieces [] m rest w = refl
fields_loop-pieces (f ∷ fs) m rest w =
    ground (arith, w.0.2, w.0.3, fields_loop-pieces fs (insert f.0 f.1 m) rest w.1)

-- The text is empty or begins with a separator; `lead` is what its pieces are behind that.
abbrev IsLed : Text → Type 0
IsLed [] = Unit
IsLed (c ∷ s) = c ≡ b'\\'

abbrev lead : Text → List Text
lead [] = []
lead (c ∷ s) = split b'\\' s

IsLed-write_fields :
    (fs : List (Text × Text)) (rest : Text) → IsLed rest → IsLed (write_fields fs rest)
IsLed-write_fields [] rest l = l
IsLed-write_fields (f ∷ fs) rest l = refl

split-append_led :
    (s rest : Text) → IsPlain s → IsLed rest → split b'\\' (s ++ rest) ≡ s ∷ lead rest
split-append_led s [] p l = rw append-nil (split_by_single backslash s p)
split-append_led s (c ∷ rest) p l = split_by-append backslash c s rest p (ground (arith, l))

lead-write_fields :
    (fs : List (Text × Text)) (rest : Text)
    → Writable fs
    → IsLed rest
    → lead (write_fields fs rest) ≡ pieces fs (lead rest)
lead-write_fields [] rest w l = refl
lead-write_fields (f ∷ fs) rest w l =
    split_by-append backslash b'\\' f.0 (f.1 ++ write_fields fs rest) w.0.0 refl
    ∙ ap (◌∷◌ f.0) (
        split-append_led f.1 (write_fields fs rest) w.0.1 (IsLed-write_fields fs rest l)
        ∙ ap (◌∷◌ f.1) (lead-write_fields fs rest w.1 l))

parse_backslash_text-lead : (s : Text) → IsLed s → parse_backslash_text s ≡ fields_loop [] (lead s)
unfolding parse_backslash_text split_by starts_with
parse_backslash_text-lead [] l = refl
parse_backslash_text-lead (c ∷ s) l = rw l

fields_loop-final : (m : FieldMap) (parts : List Text) → fields_loop m (final ∷ parts) ≡ ok m
unfolding fields_loop text_eq
fields_loop-final m [] = refl
fields_loop-final m (p ∷ parts) = refl

fields_loop-end : (m : FieldMap) {rest : Text} → IsEnd rest → fields_loop m (lead rest) ≡ ok m
fields_loop-end m nothing = unfold fields_loop in refl
fields_loop-end m (marker rest) =
    rw (split_by-append backslash b'\\' final rest refl refl)
      (fields_loop-final m (split b'\\' rest))
fields_loop-end m bare_marker = rw (split_by_single backslash final refl) (fields_loop-final m [])

IsLed-end : {rest : Text} → IsEnd rest → IsLed rest
IsLed-end nothing = tt
IsLed-end (marker rest) = refl
IsLed-end bare_marker = refl

-- Fields that are written one after the other are all read back, the last value of a key winning,
-- and what stands behind the end marker is not looked at.
pub parse_backslash_text-write_fields :
    (fs : List (Text × Text)) (rest : Text)
    → Writable fs
    → IsEnd rest
    → parse_backslash_text (write_fields fs rest) ≡ ok (insert_all [] fs)
parse_backslash_text-write_fields fs rest w e =
    parse_backslash_text-lead (write_fields fs rest) (IsLed-write_fields fs rest (IsLed-end e))
    ∙ ap (fields_loop []) (lead-write_fields fs rest w (IsLed-end e))
    ∙ fields_loop-pieces fs [] (lead rest) w
    ∙ fields_loop-end (insert_all [] fs) e

-- What is accepted is a map with ascending keys.
abbrev pub HasSortedKeys : Result ParseError FieldMap → Type 0
HasSortedKeys (ok m) = IsSorted m
HasSortedKeys (err e) = Unit

fields_loop-HasSortedKeys :
    (parts : List Text) (m : FieldMap) → IsSorted m → HasSortedKeys (fields_loop m parts)
unfolding fields_loop
fields_loop-HasSortedKeys [] m s = s
fields_loop-HasSortedKeys (key ∷ []) m s = elim (Bool-cases (is_empty key)) [
  | inl e ↦ rw e s
  | inr n ↦ elim (Bool-cases (text_eq key final)) [ inl e ↦ rw n (rw e s) | inr o ↦ rw n (rw o tt) ]
]
fields_loop-HasSortedKeys (key ∷ value ∷ parts) m s = elim (Bool-cases (is_empty key)) [
  | inl e ↦ rw e (fields_loop-HasSortedKeys (value ∷ parts) m s)
  | inr n ↦ elim (Bool-cases (text_eq key final)) [
    | inl e ↦ rw n (rw e s)
    | inr o ↦ rw n (
        rw o (fields_loop-HasSortedKeys parts (insert key value m) (insert-IsSorted key value m s)))
  ]
]

-- Whatever bytes a server sends, the reply is refused or gives a map in which no key stands twice.
pub parse_backslash_text-HasSortedKeys : (s : Text) → HasSortedKeys (parse_backslash_text s)
unfolding parse_backslash_text
parse_backslash_text-HasSortedKeys s =
    fields_loop-HasSortedKeys (after_first (starts_with (codes "\\") s) (split b'\\' s)) [] tt
