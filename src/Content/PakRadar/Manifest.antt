-- ===== src/Content/PakRadar/Manifest.antt =====
-- `parse_filelist` of crates/reveille-core/src/content/pakradar.rs: blocks of quoted properties.
use reveille.Prelude.{
  ℕ, ◌+◌, Bool, ◌||◌, List, [], ◌∷◌, ◌++◌, Option, none, some, if◌then◌else◌, Result, ok, err,
  ok_or, ◌>>=◌, and_then,
}
use reveille.Text.{
  Text, codes, is_empty, is_whitespace, trim, text_eq, starts_with, strip_prefix, strip_suffix,
}
use reveille.Text.Split.{lines}
use reveille.Content.PakRadar.{
  PakRadarError, syntax, unclosed_block, missing_field, PakRadarEntry, parse_md5,
}

pub record Block : Type 0 where
  pub alias : Option Text
  pub md5 : Option Text
  pub url : Option Text

abbrev pub empty_block : Block
empty_block = record { alias = none; md5 = none; url = none }

-- `Block::finish`
unfoldable pub finish : Block → ℕ → Result PakRadarError PakRadarEntry
unfolding parse_md5
finish block line = do
  alias ← ok_or block.alias (missing_field (codes "alias") line)
  text ← ok_or block.md5 (missing_field (codes "md5") line)
  md5 ← parse_md5 text
  url ← ok_or block.url (missing_field (codes "url") line)
  ok (record { alias = alias; md5 = md5; url = url })

-- `split_once(char::is_whitespace)`
unfoldable pub split_space : Text → Option (Text × Text)
split_space [] = none
split_space (c ∷ s) =
    let rest : Option (Text × Text) =
      and_then (split_space s) (λ parts. some (c ∷ parts.0, parts.1)) in
    if is_whitespace c then some ([], s) else rest

abbrev pub quoted_value : Text → Option Text
quoted_value rest = and_then (strip_prefix (codes "\"") (trim rest)) (strip_suffix (codes "\""))

-- `parse_property`
unfoldable pub parse_property : Text → ℕ → Result PakRadarError (Text × Text)
unfolding split_space
parse_property line number = do
  parts ← ok_or (split_space line) (syntax number)
  value ← ok_or (quoted_value parts.1) (syntax number)
  ok (parts.0, value)

-- The field that a key names; any other key is passed over.
unfoldable pub set_property : Text → Text → Block → Block
set_property key value block =
    if text_eq key (codes "alias")
    then record { alias = some value; md5 = block.md5; url = block.url }
    else if text_eq key (codes "md5")
    then record { alias = block.alias; md5 = some value; url = block.url }
    else if text_eq key (codes "url")
    then record { alias = block.alias; md5 = block.md5; url = some value }
    else block

abbrev pub is_skipped : Text → Bool
is_skipped line = is_empty line || (starts_with (codes "//") line || starts_with (codes "#") line)

abbrev pub opening : Text
opening = codes "map {"

abbrev pub closing : Text
closing = codes "}"

-- One line, trimmed, with the block that is open: the block afterwards, and the entry that the
-- line completes.
abbrev pub open_step : Option Block → ℕ → Result PakRadarError (Option Block × Option PakRadarEntry)
open_step none number = ok (some empty_block, none)
open_step (some block) number = err (syntax number)

abbrev pub close_step :
    Option Block → ℕ → Result PakRadarError (Option Block × Option PakRadarEntry)
close_step none number = err (syntax number)
close_step (some block) number = finish block number >>= λ entry. ok (none, some entry)

abbrev pub property_step :
    Text → Option Block → ℕ → Result PakRadarError (Option Block × Option PakRadarEntry)
property_step line none number = err (syntax number)
property_step line (some block) number = parse_property line number >>= λ property.
    ok (some (set_property property.0 property.1 block), none)

unfoldable pub line_step :
    Text → Option Block → ℕ → Result PakRadarError (Option Block × Option PakRadarEntry)
unfolding finish parse_property set_property
line_step line current number =
    if is_skipped line
    then ok (current, none)
    else if text_eq line opening
    then open_step current number
    else if text_eq line closing
    then close_step current number
    else property_step line current number

abbrev pub push_entry : List PakRadarEntry → Option PakRadarEntry → List PakRadarEntry
push_entry entries none = entries
push_entry entries (some entry) = entries ++ (entry ∷ [])

abbrev pub at_end : Option Block → List PakRadarEntry → Result PakRadarError (List PakRadarEntry)
at_end none entries = ok entries
at_end (some block) entries = err unclosed_block

-- The loop over the lines, with the number of the next one.
unfoldable pub parse_lines :
    ℕ → Option Block → List PakRadarEntry → List Text → Result PakRadarError (List PakRadarEntry)
unfolding line_step
parse_lines number current entries [] = at_end current entries
parse_lines number current entries (raw ∷ rest) = line_step (trim raw) current number >>= λ step.
    parse_lines (number + 1) step.0 (push_entry entries step.1) rest

-- `parse_filelist`
unfoldable pub parse_filelist : Text → Result PakRadarError (List PakRadarEntry)
unfolding parse_lines
parse_filelist input = parse_lines 1 none [] (lines input)
