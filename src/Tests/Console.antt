-- ===== src/Tests/Console.antt =====
-- Runs of the readers of the console's replies, and their theorems at concrete inputs.
use reveille.Prelude.{◌≡◌, refl, [], ◌∷◌, ◌++◌, none, some}
use reveille.Text.{
  Text, codes, is_whitespace, is_control, strip_prefix, starts_with, trim_by, text_eq,
}
use reveille.Text.Split.{lines, split_by}
use reveille.Text.Number.{pos, parse_unsigned, parse_i32}
use reveille.Rcon.Reply.{parse_status}

abbrev line : Text
line = codes " 0  12 CNCT a b  0 1.2.3.4:12203 77 25000"

abbrev printed : Text
printed = codes "map: dm/mohdm6\nnum score ping\n--- -----\n" ++ line

-- The name holds its space, and the client is still connecting.
parse_status_test : parse_status printed ≡ record {
  map = some (codes "dm/mohdm6");
  players = record { slot = 0; score = pos 12; ping = none; name = codes "a b" } ∷ [];
}
unfolding parse_status lines split_by strip_prefix starts_with trim_by is_whitespace is_control
    text_eq parse_unsigned parse_i32
parse_status_test = refl
