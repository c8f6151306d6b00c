-- ===== src/Rcon/Command.antt =====
-- crates/reveille-core/src/rcon/command.rs: the values an admin action carries, and the console
-- lines each action becomes.
pub mod Values
pub mod Lines
pub mod Rotation
use reveille.Prelude.{
  ℕ, ◌+◌, ◌*◌, ◌≤◌, Bool, true, false, not, ◌&&◌, ◌||◌, List, [], ◌∷◌, ◌++◌, Option, none, some,
  ltb, leb, ◌==◌, if◌then◌else◌, any, all, find, length, map, Result, ok, err, ◌>>◌, ◌>>=◌,
}
use reveille.Text.{
  Text, codes, is_empty, is_ascii_alphanumeric, is_ascii_graphic, trim, contains, starts_with,
  ends_with, text_eq, byte_len,
}
use reveille.Text.Split.{split, join}
use reveille.Text.Number.{to_text}

pub data InvalidValue : Type 0 where
  empty : InvalidValue
  too_long : (limit : ℕ) → InvalidValue
  character : (bad : ℕ) → InvalidValue
  comment : InvalidValue
  not_a_map_name : InvalidValue

abbrev pub has_comment : Text → Bool
has_comment value = contains (codes "//") value || contains (codes "/*") value

unfoldable pub bounded : Text → ℕ → Result InvalidValue Unit
bounded value limit =
    if is_empty value
    then err empty
    else if ltb limit (length value)
    then err (too_long limit)
    else if has_comment value
    then err comment
    else ok tt

-- The error of the first character found, if any.
abbrev pub no_bad : Option ℕ → Result InvalidValue Unit
no_bad none = ok tt
no_bad (some bad) = err (character bad)

abbrev pub is_password_char : ℕ → Bool
is_password_char c = is_ascii_graphic c && not (c == b'"')

-- `RconPassword::new`
unfoldable pub rcon_password : Text → Result InvalidValue Text
unfolding bounded is_ascii_graphic
rcon_password value =
    bounded value 128 >> no_bad (find (λ c. not (is_password_char c)) value) >> ok value

abbrev pub is_map_char : ℕ → Bool
is_map_char c = is_ascii_alphanumeric c || c == b'_' || c == b'-' || c == b'.' || c == b'/'

abbrev pub leaves_folder : Text → Bool
leaves_folder value =
    starts_with (codes "/") value
    || ends_with (codes "/") value
    || any (λ part. text_eq part (codes "..")) (split b'/' value)

-- `MapName::new`
unfoldable pub map_name : Text → Result InvalidValue Text
unfolding bounded
map_name raw =
    let value = trim raw in
    bounded value 64
    >> no_bad (find (λ c. not (is_map_char c)) value)
    >> (if leaves_folder value then err not_a_map_name else ok value)

abbrev pub is_line_char : ℕ → Bool
is_line_char c = c == b' ' || is_ascii_graphic c

abbrev pub is_chat_char : ℕ → Bool
is_chat_char c = is_line_char c && not (c == b'"' || c == b';')

-- `ChatText::new`
unfoldable pub chat_text : Text → Result InvalidValue Text
unfolding bounded
chat_text raw =
    let value = trim raw in
    bounded value 150 >> no_bad (find (λ c. not (is_chat_char c)) value) >> ok value

abbrev pub is_cvar_char : ℕ → Bool
is_cvar_char c = is_ascii_alphanumeric c || c == b'_'

-- `CvarName::new`
unfoldable pub cvar_name : Text → Result InvalidValue Text
unfolding bounded
cvar_name value = bounded value 64 >> no_bad (find (λ c. not (is_cvar_char c)) value) >> ok value

-- `RawCommand::new`
unfoldable pub raw_command : Text → Result InvalidValue Text
raw_command raw =
    let value = trim raw in
    if is_empty value
    then err empty
    else if ltb 800 (length value)
    then err (too_long 800)
    else (no_bad (find (λ c. not (is_line_char c)) value) >> ok value)

-- `map.0.len() + 1` for each map, summed.
unfoldable pub rotation_length : List Text → ℕ
unfolding byte_len
rotation_length [] = 0
rotation_length (m ∷ maps) = byte_len m + 1 + rotation_length maps

-- `Rotation::new`
unfoldable pub rotation : List Text → Result InvalidValue (List Text)
unfolding rotation_length
rotation maps =
    if is_empty maps
    then err empty
    else if ltb 700 (rotation_length maps)
    then err (too_long 700)
    else ok maps

pub data RconEngine : Type 0 where
  original open_mohaa : RconEngine

pub data RconAction : Type 0 where
  status : RconAction
  kick : (slot : ℕ) → RconAction
  ban : (slot : ℕ) → RconAction
  tell : (slot : ℕ) → Text → RconAction
  say : Text → RconAction
  change_map : Text → RconAction
  restart_round : RconAction
  read_cvar : Text → RconAction
  set_rotation : List Text → RconAction
  raw : Text → RconAction

-- `RconAction::command_lines`
unfoldable pub command_lines : RconAction → List Text
unfolding join to_text
command_lines status = codes "status" ∷ []
command_lines (kick slot) = (codes "clientkick " ++ to_text slot) ∷ []
command_lines (ban slot) =
    (codes "banaddr " ++ to_text slot) ∷ (codes "clientkick " ++ to_text slot) ∷ []
command_lines (tell slot text) = (codes "tell " ++ to_text slot ++ b' ' ∷ text) ∷ []
command_lines (say text) = (codes "say " ++ text) ∷ []
command_lines (change_map name) = (codes "map " ++ name) ∷ []
command_lines restart_round = codes "restart" ∷ []
command_lines (read_cvar name) = name ∷ []
command_lines (set_rotation maps) =
    (codes "set sv_maplist \"" ++ join (codes " ") maps ++ codes "\"") ∷ []
command_lines (raw line) = line ∷ []

-- `RconAction::waits_on_map_load`
abbrev pub waits_on_map_load : RconAction → Bool
waits_on_map_load (change_map name) = true
waits_on_map_load restart_round = true
waits_on_map_load (raw line) = true
waits_on_map_load _ = false

abbrev pub is_open_mohaa : RconEngine → Bool
is_open_mohaa open_mohaa = true
is_open_mohaa original = false

-- `RconAction::available_on`
abbrev pub available_on : RconAction → RconEngine → Bool
available_on (tell slot text) engine = is_open_mohaa engine
available_on (ban slot) engine = is_open_mohaa engine
available_on _ engine = true
