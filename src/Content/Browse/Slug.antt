-- ===== src/Content/Browse/Slug.antt =====
-- The slug of a page's address.
use reveille.Prelude.{
  ℕ, ◌≡◌, refl, Bool, true, false, not, ◌&&◌, ◌||◌, [], ◌∷◌, ◌++◌, ◌==◌, arith, inl, inr,
  Bool-cases, if◌then◌else◌, within,
}
use reveille.Text.{
  Text, codes, is_empty, is_ascii_alphanumeric, lower, trim, trim_end_by, ends_with,
  ends_with-concat, trim_end_by-concat, trim_end_by-drop,
}
use reveille.Content.Browse.{push_slug, push_title, slug_of}

-- A lower-case ASCII sign or a digit.
abbrev pub is_slug_char : ℕ → Bool
is_slug_char c = within b'a' b'z' c || within b'0' b'9' c

-- The texts that a slug can be: its dashes stand alone, between other characters. The flag tells
-- whether a dash may come next.
pub data IsSlug : Bool → Text → Type 0 where
  nothing : IsSlug false []
  sign :
      {open_end : Bool} {s : Text} (c : ℕ)
      → is_slug_char c ≡ true
      → IsSlug open_end s
      → IsSlug true (s ++ (c ∷ []))
  dash : {s : Text} → IsSlug true s → IsSlug false (s ++ (b'-' ∷ []))

lower-is_slug_char : (c : ℕ) → is_ascii_alphanumeric c ≡ true → is_slug_char (lower c) ≡ true
unfolding is_ascii_alphanumeric lower
lower-is_slug_char c h = ground arith

is_empty-concat : (s : Text) (c : ℕ) → is_empty (s ++ (c ∷ [])) ≡ false
is_empty-concat [] c = refl
is_empty-concat (x ∷ s) c = refl

dash_ready :
    {open_end : Bool} {s : Text}
    → IsSlug open_end s
    → (not (ends_with (codes "-") s) && not (is_empty s)) ≡ open_end
dash_ready nothing = ground arith
dash_ready (sign {s = s} c k h) =
    rw (ends_with-concat b'-' c s, is_empty-concat s c) (ground (arith, k))
dash_ready (dash {s = s} h) = rw (ends_with-concat b'-' b'-' s) refl

push_slug-IsSlug :
    {open_end : Bool} {s : Text} (c : ℕ)
    → IsSlug open_end s
    → (next : Bool) × IsSlug next (push_slug s c)
unfolding push_slug
push_slug-IsSlug {open_end} {s} c h = elim (Bool-cases (is_ascii_alphanumeric c)) [
  | inl kept ↦ rw kept (true, sign (lower c) (lower-is_slug_char c kept) h)
  | inr other ↦ rw other (other_character open_end h)
]
  where
    other_character :
        (open_end : Bool)
        → IsSlug open_end s
        → (next : Bool) × IsSlug next
            (if not (ends_with (codes "-") s) && not (is_empty s) then s ++ (b'-' ∷ []) else s)
    other_character true h = rw (dash_ready h) (false, dash h)
    other_character false h = rw (dash_ready h) (false, h)

push_title-IsSlug :
    (title : Text) {open_end : Bool} {s : Text}
    → IsSlug open_end s
    → (next : Bool) × IsSlug next (push_title s title)
unfolding push_title
push_title-IsSlug [] {open_end} h = (open_end, h)
push_title-IsSlug (c ∷ title) {s = s} h =
    let (next, g) = push_slug-IsSlug c h in
    push_title-IsSlug title {open_end = next} {s = push_slug s c} g

-- A slug that is whole: nothing, or it ends behind a letter or digit.
pub data IsWhole : Text → Type 0 where
  no_slug : IsWhole []
  slug : {s : Text} → IsSlug true s → IsWhole s

trim-IsWhole :
    {open_end : Bool} {s : Text} → IsSlug open_end s → IsWhole (trim_end_by (λ c. c == b'-') s)
trim-IsWhole nothing = unfold trim_end_by in no_slug
trim-IsWhole (sign {s = s} c k h) =
    rw (trim_end_by-concat (λ c. c == b'-') s c (ground (arith, k))) (slug (sign c k h))
trim-IsWhole (dash {s = s} h) = rw (trim_end_by-drop (λ c. c == b'-') s b'-' refl) (letters s h)
  where
    letters : (s : Text) → IsSlug true s → IsWhole (trim_end_by (λ c. c == b'-') s)
    letters _ (sign {s = s} c k h) =
        rw (trim_end_by-concat (λ c. c == b'-') s c (ground (arith, k))) (slug (sign c k h))

-- The slug of any title is nothing, or lower-case ASCII letters and digits with single dashes
-- between them.
pub slug_of-IsWhole : (title : Text) → IsWhole (slug_of title)
unfolding slug_of
slug_of-IsWhole title = trim-IsWhole (push_title-IsSlug (trim title) nothing).1
