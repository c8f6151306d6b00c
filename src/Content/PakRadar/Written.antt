-- ===== src/Content/PakRadar/Written.antt =====
-- A manifest is read back as the entries that it was written from.
use reveille.Prelude.{
  true, false, not, any, all, ◌==◌, arith, ℕ, ◌+◌, ◌≡◌, refl, sym, ap, ◌∙◌, List, [], ◌∷◌, ◌++◌,
  append_assoc, append-nil, none, some, All, length, ok,
}
use reveille.Text.{
  Text, codes, is_whitespace, trim, trim_by_ends, trim_by_none, text_eq, starts_with, strip_prefix,
  strip_suffix-append,
}
use reveille.Text.Split.{unlines, IsLine, lines-unlines, append-IsLine}
use reveille.Content.PakRadar.{PakRadarEntry, show_md5}
use reveille.Content.PakRadar.Digest.{AreDigestBytes, parse_md5-show_md5, show_md5-plain}
use reveille.Content.PakRadar.Manifest.{
  Block, empty_block, finish, split_space, parse_property, set_property, opening, closing,
  line_step, parse_lines, parse_filelist, quoted_value,
}

-- `key "value"`
abbrev pub property_line : Text → Text → Text
property_line key value = key ++ (b' ' ∷ b'"' ∷ (value ++ (b'"' ∷ [])))

-- The lines of one block.
abbrev pub entry_lines : PakRadarEntry → List Text → List Text
entry_lines e rest =
    opening
    ∷ property_line (codes "alias") e.alias
    ∷ property_line (codes "md5") (show_md5 e.md5)
    ∷ property_line (codes "url") e.url
    ∷ closing
    ∷ rest

abbrev pub manifest_lines : List PakRadarEntry → List Text
manifest_lines [] = []
manifest_lines (e ∷ es) = entry_lines e (manifest_lines es)

-- A digest that the format can carry.
abbrev pub HaveDigests : List PakRadarEntry → Type 0
HaveDigests = All (λ e. AreDigestBytes e.md5 × (length e.md5 ≡ 16))

quoted_value-quoted : (value : Text) → quoted_value (b'"' ∷ (value ++ (b'"' ∷ []))) ≡ some value
unfolding strip_prefix
quoted_value-quoted value =
    rw
      (trim_by_ends is_whitespace b'"' value b'"' (unfold is_whitespace in refl)
        (unfold is_whitespace in refl))
      (strip_suffix-append value (codes "\""))

module _ (value : Text) (block : Block) (number : ℕ) where
  alias_step :
      line_step (trim (property_line (codes "alias") value)) (some block) number
      ≡ ok (some (set_property (codes "alias") value block), none)
  unfolding line_step parse_property split_space is_whitespace text_eq starts_with strip_prefix
  alias_step =
      rw (trim_by_ends is_whitespace b'a' (codes "lias \"" ++ value) b'"' refl refl)
        (rw (quoted_value-quoted value) refl)

  md5_step :
      line_step (trim (property_line (codes "md5") value)) (some block) number
      ≡ ok (some (set_property (codes "md5") value block), none)
  unfolding line_step parse_property split_space is_whitespace text_eq starts_with strip_prefix
  md5_step =
      rw (trim_by_ends is_whitespace b'm' (codes "d5 \"" ++ value) b'"' refl refl)
        (rw (quoted_value-quoted value) refl)

  url_step :
      line_step (trim (property_line (codes "url") value)) (some block) number
      ≡ ok (some (set_property (codes "url") value block), none)
  unfolding line_step parse_property split_space is_whitespace text_eq starts_with strip_prefix
  url_step =
      rw (trim_by_ends is_whitespace b'u' (codes "rl \"" ++ value) b'"' refl refl)
        (rw (quoted_value-quoted value) refl)

opening_step : (number : ℕ) → line_step (trim opening) none number ≡ ok (some empty_block, none)
unfolding line_step text_eq starts_with
opening_step number =
    rw
      (trim_by_ends is_whitespace b'm' (codes "ap ") b'{' (unfold is_whitespace in refl)
        (unfold is_whitespace in refl))
      refl

full_block : PakRadarEntry → Block
full_block e = record { alias = some e.alias; md5 = some (show_md5 e.md5); url = some e.url }

closing_step :
    (e : PakRadarEntry) (number : ℕ)
    → AreDigestBytes e.md5
    → length e.md5 ≡ 16
    → line_step (trim closing) (some (full_block e)) number ≡ ok (none, some e)
unfolding line_step text_eq starts_with full_block finish is_whitespace
closing_step e number bytes sixteen =
    rw (trim_by_none is_whitespace closing refl) (rw (parse_md5-show_md5 e.md5 bytes sixteen) refl)

parse_lines-entry_lines :
    (e : PakRadarEntry) (number : ℕ) (entries : List PakRadarEntry) (rest : List Text)
    → AreDigestBytes e.md5
    → length e.md5 ≡ 16
    → (next : ℕ) × (parse_lines number none entries (entry_lines e rest)
        ≡ parse_lines next none (entries ++ (e ∷ [])) rest)
unfolding parse_lines set_property text_eq full_block
parse_lines-entry_lines e number entries rest bytes sixteen = (
  number + 1 + 1 + 1 + 1 + 1,
  rw (opening_step number) (
      rw (alias_step e.alias empty_block (number + 1)) (
        rw
          (md5_step (show_md5 e.md5) (record empty_block { alias = some e.alias }) (number + 1 + 1))
          (rw
            (url_step e.url
              (record { alias = some e.alias; md5 = some (show_md5 e.md5); url = none })
              (number + 1 + 1 + 1))
            (rw (closing_step e (number + 1 + 1 + 1 + 1) bytes sixteen) refl)))),
)

parse_lines-manifest_lines :
    (es : List PakRadarEntry) (number : ℕ) (entries : List PakRadarEntry)
    → HaveDigests es
    → parse_lines number none entries (manifest_lines es) ≡ ok (entries ++ es)
unfolding parse_lines
parse_lines-manifest_lines [] number entries h = ap ok (sym (append-nil entries))
parse_lines-manifest_lines (e ∷ es) number entries h =
    let (next, step) = parse_lines-entry_lines e number entries (manifest_lines es) h.0.0 h.0.1 in
    step
    ∙ parse_lines-manifest_lines es next (entries ++ (e ∷ [])) h.1
    ∙ ap ok (append_assoc entries (e ∷ []) es)

-- A value that stands on one line.
abbrev pub IsOneLine : Text → Type 0
IsOneLine value = any (λ c. c == b'\n') value ≡ false

-- Entries whose aliases and addresses have no newline.
abbrev pub AreOneLine : List PakRadarEntry → Type 0
AreOneLine = All (λ e. IsOneLine e.alias × IsOneLine e.url)

-- The text of a manifest.
abbrev pub manifest_text : List PakRadarEntry → Text
manifest_text es = unlines (manifest_lines es)

newline_whitespace : (c : ℕ) → is_whitespace c ≡ false → (c == b'\n') ≡ false
unfolding is_whitespace
newline_whitespace c h = ground (arith, h)

no_newline :
    (s : Text) → all (λ c. not (is_whitespace c)) s ≡ true → any (λ c. c == b'\n') s ≡ false
no_newline [] h = refl
no_newline (c ∷ s) h = ground (arith, newline_whitespace c, no_newline s, h)

manifest_lines-IsLine :
    (es : List PakRadarEntry) → HaveDigests es → AreOneLine es → All IsLine (manifest_lines es)
manifest_lines-IsLine [] h o = tt
manifest_lines-IsLine (e ∷ es) h o =
    let digest = no_newline (show_md5 e.md5) (show_md5-plain e.md5 h.0.0).0 in
    (
      append-IsLine (codes "map ") b'{' refl refl refl,
      (
        append-IsLine (codes "alias \"" ++ e.alias) b'"' (ground (arith, o.0.0)) refl refl,
        (
          append-IsLine (codes "md5 \"" ++ show_md5 e.md5) b'"' (ground (arith, digest)) refl refl,
          (
            append-IsLine (codes "url \"" ++ e.url) b'"' (ground (arith, o.0.1)) refl refl,
            (append-IsLine [] b'}' refl refl refl, manifest_lines-IsLine es h.1 o.1),
          ),
        ),
      ),
    )

-- A manifest is read back as the entries that its text was written from, one block for each, when
-- each digest has sixteen bytes and no alias or address has a newline. Any other character may
-- stand in them, quotes and surrounding spaces included.
pub parse_filelist-written :
    (es : List PakRadarEntry)
    → HaveDigests es
    → AreOneLine es
    → parse_filelist (manifest_text es) ≡ ok es
unfolding parse_filelist
parse_filelist-written es h o =
    rw (lines-unlines (manifest_lines es) (manifest_lines-IsLine es h o))
      (parse_lines-manifest_lines es 1 [] h)
