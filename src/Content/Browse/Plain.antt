-- ===== src/Content/Browse/Plain.antt =====
-- `plain_text` of crates/reveille-core/src/content/catalogue.rs: markup is dropped, character
-- references are decoded and white space is collapsed.
use reveille.Prelude.{
  ℕ, zero, suc, ◌-◌, ◌+◌, ◌<◌, ◌≡◌, refl, false, not, ◌||◌, List, [], ◌∷◌, ◌++◌, Option, none, some,
  if◌then◌else◌, filter, map, length, any, any-append, ◌==◌, arith,
}
use reveille.Text.{Text, codes, is_empty, starts_with, trim, to_ascii_lowercase}
use reveille.Text.Split.{split_once, lines, words, join}

-- What stands for a tag: a line break where it ends a line.
abbrev pub break_of : Text → Text
break_of tag =
    if starts_with (codes "br") tag
      || (starts_with (codes "/p") tag || starts_with (codes "/li") tag)
    then b'\n' ∷ []
    else []

-- What a tag and the text behind it come to.
abbrev pub tag_text : Option (Text × Text) → Text → Text
tag_text none later = []
tag_text (some (tag, behind)) later = break_of (to_ascii_lowercase (trim tag)) ++ later

abbrev pub around_tag : Text → Option (Text × Text) → Text → Text
around_tag rest none tagged = rest
around_tag rest (some (before, after)) tagged = before ++ tagged

-- What stands behind a separator.
abbrev pub behind : Option (Text × Text) → Text
behind none = []
behind (some (before, after)) = after

-- The loop over the tags, on fuel: a tag without its `>` ends the text.
unfoldable pub strip_tags : ℕ → Text → Text
strip_tags zero rest = rest
strip_tags (suc fuel) rest =
    let start = split_once b'<' rest in
    let end = split_once b'>' (behind start) in
    around_tag rest start (tag_text end (strip_tags fuel (behind end)))

-- `str::replace`: the matches that do not overlap, from the left. The number is of the characters
-- of a match still to be left out.
unfoldable pub replace_from : ℕ → Text → Text → Text → Text
replace_from skip needle with_text [] = []
replace_from (suc skip) needle with_text (c ∷ s) = replace_from skip needle with_text s
replace_from zero needle with_text (c ∷ s) =
    let found = with_text ++ replace_from (length needle - 1) needle with_text s in
    let other = c ∷ replace_from zero needle with_text s in
    if starts_with needle (c ∷ s) then found else other

abbrev pub replace : Text → Text → Text → Text
replace needle with_text s = replace_from 0 needle with_text s

unfoldable pub decode_references : Text → Text
unfolding replace_from
decode_references text = replace (codes "&amp;") (codes "&") (
    replace (codes "&#039;") (codes "'") (
      replace (codes "&#39;") (codes "'") (
        replace (codes "&quot;") (codes "\"") (
          replace (codes "&gt;") (codes ">")
            (replace (codes "&lt;") (codes "<") (replace (codes "&nbsp;") (codes " ") text))))))

-- `split_whitespace().collect::<Vec<_>>().join(" ")`
abbrev pub collapsed : Text → Text
collapsed line = join (codes " ") (words line)

abbrev pub shown_lines : Text → List Text
shown_lines text = filter (λ line. not (is_empty line)) (map collapsed (lines text))

abbrev pub text_of_lines : List Text → Option Text
text_of_lines [] = none
text_of_lines (l ∷ ls) = some (join (codes "\n") (l ∷ ls))

-- Each round of the loop takes a `<` away at least, so the length is fuel enough.
unfoldable pub plain_text : Text → Option Text
unfolding strip_tags decode_references
plain_text raw = text_of_lines (shown_lines (decode_references (strip_tags (length raw + 1) raw)))

-- A separator is cut at its first place, or there is none.
abbrev IsCut : ℕ → Text → Option (Text × Text) → Type 0
IsCut c s none = any (λ x. x == c) s ≡ false
IsCut c s (some (a, b)) = (any (λ x. x == c) a ≡ false) × (length b < length s)

split_once-IsCut : (c : ℕ) (s : Text) → IsCut c s (split_once c s)
unfolding split_once
split_once-IsCut c [] = refl
split_once-IsCut c (x ∷ s) = later (split_once c s) (split_once-IsCut c s)
  where
    later :
        (o : Option (Text × Text))
        → IsCut c s o
        → IsCut c (x ∷ s) (
            if x == c then some ([], s) else elim o [ none ↦ none | some (a, b) ↦ some (x ∷ a, b) ])
    later none h = ground arith
    later (some (a, b)) h = ground arith

break_of-plain : (tag : Text) → any (λ x. x == b'<') (break_of tag) ≡ false
break_of-plain tag = ground arith

-- A text with no `<` in it.
abbrev pub HasNoTag : Text → Type 0
HasNoTag s = any (λ x. x == b'<') s ≡ false

strip_tags-HasNoTag :
    (fuel : ℕ) (rest : Text) → length rest < fuel → HasNoTag (strip_tags fuel rest)
unfolding strip_tags
strip_tags-HasNoTag zero rest h = absurd (omega (arith, h))
strip_tags-HasNoTag (suc fuel) rest h =
    by_start (split_once b'<' rest) (split_once-IsCut b'<' rest) (strip_tags-HasNoTag fuel)
  where
    by_end :
        (after : Text) (o : Option (Text × Text))
        → IsCut b'>' after o
        → length after < fuel
        → ((later : Text) → length later < fuel → HasNoTag (strip_tags fuel later))
        → HasNoTag (tag_text o (strip_tags fuel (behind o)))
    by_end after none c m ih = refl
    by_end after (some (tag, later)) c m ih = ground (
      arith,
      any-append (λ x. x == b'<') (break_of (to_ascii_lowercase (trim tag)))
          (strip_tags fuel later),
      break_of-plain (to_ascii_lowercase (trim tag)),
      ih later (omega (arith, m, c.1)),
    )

    by_start :
        (o : Option (Text × Text))
        → IsCut b'<' rest o
        → ((later : Text) → length later < fuel → HasNoTag (strip_tags fuel later))
        → HasNoTag (
            around_tag rest o (
              tag_text
                (split_once b'>' (behind o))
                (strip_tags fuel (behind (split_once b'>' (behind o))))))
    by_start none c ih = c
    by_start (some (before, after)) c ih = ground (
      arith,
      any-append (λ x. x == b'<') before
          (tag_text (split_once b'>' after) (strip_tags fuel (behind (split_once b'>' after)))),
      c.0,
      by_end after (split_once b'>' after) (split_once-IsCut b'>' after) (omega (arith, h, c.1)) ih,
    )

-- With as much fuel as `plain_text` gives it, the loop over the tags leaves no `<` in any text,
-- before the references are decoded: it ends at the end of the text and not for want of fuel.
pub strip_tags-none_left : (raw : Text) → HasNoTag (strip_tags (length raw + 1) raw)
strip_tags-none_left raw = strip_tags-HasNoTag (length raw + 1) raw (omega arith)
