-- ===== src/Rcon/Command/Lines.antt =====
-- What the console lines of an admin action can hold.
use reveille.Prelude.{ℕ, ◌+◌, ◌≤◌, ◌≡◌, refl, true, [], ◌∷◌, ◌++◌, all, length, ok, arith, All}
use reveille.Text.{Text, codes, is_ascii_graphic}
use reveille.Text.Split.{join}
use reveille.Text.Number.{to_text, u16_max}
use reveille.Rcon.Command.{
  is_map_char, chat_text, RconAction, status, kick, ban, tell, say, change_map, restart_round,
  read_cvar, set_rotation, raw, command_lines,
}
use reveille.Rcon.Command.Values.{
  Fits, is_plain, slot-Fits, Fits-imp, Fits-append, chat_text-Fits, cvar_name-Fits, map_name-Fits,
  raw_command-Fits, rotation-Fits, IsAccepted, is_sent_char, map-plain, IsMapName,
}

-- A line of literal text before a value.
prefixed :
    (literal : Text) (n : ℕ) (value : Text)
    → all is_plain literal ≡ true
    → length literal ≤ 20
    → n ≤ 750
    → Fits is_plain n value
    → Fits is_plain 800 (literal ++ value)
prefixed literal n value plain short hn hv =
    Fits-imp is_plain is_plain (λ c e. e) (20 + n) 800 (omega (arith, hn)) (literal ++ value)
      (Fits-append is_plain 20 n literal value (plain, short) hv)

slot_line :
    (literal : Text) (slot : ℕ)
    → all is_plain literal ≡ true
    → length literal ≤ 20
    → slot ≤ u16_max
    → Fits is_plain 800 (literal ++ to_text slot)
slot_line literal slot plain short h =
    prefixed literal 5 (to_text slot) plain short (omega arith) (slot-Fits slot h)

map-Fits : (name : Text) → IsMapName name → Fits is_plain 64 name
map-Fits name (value, h) =
    Fits-imp is_map_char is_plain map-plain 64 64 (omega arith) name (map_name-Fits value name h)

text_Fits : (text : Text) → ((value : Text) × (chat_text value ≡ ok text)) → Fits is_plain 150 text
text_Fits text (value, h) = chat_text-Fits value text h

-- Every line of an action whose values were accepted is at most 800 characters, all of them
-- printable ASCII or spaces, and only a line typed by hand can hold a command separator.
pub command_lines-Fits :
    (action : RconAction)
    → IsAccepted action
    → All (Fits (is_sent_char action) 800) (command_lines action)
unfolding command_lines is_plain is_ascii_graphic
command_lines-Fits status h = ((refl, omega arith), tt)
command_lines-Fits (kick slot) h = (slot_line (codes "clientkick ") slot refl (omega arith) h, tt)
command_lines-Fits (ban slot) h = (
  slot_line (codes "banaddr ") slot refl (omega arith) h,
  (slot_line (codes "clientkick ") slot refl (omega arith) h, tt),
)
command_lines-Fits (tell slot text) h = (
  prefixed (codes "tell ") (5 + (1 + 150)) (to_text slot ++ b' ' ∷ text) refl (omega arith)
      (omega arith)
      (Fits-append is_plain 5 151 (to_text slot) (b' ' ∷ text) (slot-Fits slot h.0)
        (Fits-append is_plain 1 150 (codes " ") text (refl, omega arith) (text_Fits text h.1))),
  tt,
)
command_lines-Fits (say text) h =
    (prefixed (codes "say ") 150 text refl (omega arith) (omega arith) (text_Fits text h), tt)
command_lines-Fits (change_map name) h =
    (prefixed (codes "map ") 64 name refl (omega arith) (omega arith) (map-Fits name h), tt)
command_lines-Fits restart_round h = ((refl, omega arith), tt)
command_lines-Fits (read_cvar name) (value, h) =
    (prefixed [] 64 name refl (omega arith) (omega arith) (cvar_name-Fits value name h), tt)
command_lines-Fits (set_rotation maps) h = (
  prefixed (codes "set sv_maplist \"") (700 + 1) (join (codes " ") maps ++ codes "\"") refl
      (omega arith) (omega arith)
      (Fits-append is_plain 700 1 (join (codes " ") maps) (codes "\"") (rotation-Fits maps h.0 h.1)
        (refl, omega arith)),
  tt,
)
command_lines-Fits (raw line) (value, h) = (raw_command-Fits value line h, tt)
