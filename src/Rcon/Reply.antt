-- ===== src/Rcon/Reply.antt =====
-- crates/reveille-core/src/rcon/reply.rs: what a server prints back. An index into a line counts
-- characters, where the code's counts bytes: both cut the line at the same places.
pub mod Spans
pub mod Printed
use reveille.Prelude.{
  unwrap_or, and_then, ℕ, ◌+◌, ◌-◌, Bool, true, false, not, ◌&&◌, ◌||◌, List, [], ◌∷◌, ◌++◌, Option,
  none, some, ltb, length, get_or, take, drop, head?, filter, if◌then◌else◌, Result, ok, err, ok_or,
  ◌>>=◌, suc,
}
use reveille.Text.{
  Text, Bytes, codes, is_empty, is_whitespace, is_control, text_eq, trim, strip_prefix, starts_with,
}
use reveille.Text.Split.{lines}
use reveille.Text.Number.{ℤ, parse_unsigned, parse_i32, u16_max, u32_max, u64_max}
use reveille.MapIndex.{nonempty}

pub data ReplyError : Type 0 where
  invalid_header not_print bad_password not_enabled : ReplyError

abbrev pub print_marker : Bytes
print_marker = codes "print\n"

abbrev pub marker_bytes : Bytes
marker_bytes = 0xff ∷ 0xff ∷ 0xff ∷ 0xff ∷ []

-- `parse_print_packet`: a byte is the code point of its character.
unfoldable pub parse_print_packet : Bytes → Result ReplyError Text
parse_print_packet packet = do
  marked ← ok_or (strip_prefix marker_bytes packet) invalid_header
  ok_or (strip_prefix print_marker (unwrap_or (strip_prefix (0x01 ∷ []) marked) marked)) not_print

abbrev pub first_line : Option Text → Text
first_line none = []
first_line (some line) = trim line

-- `reply_outcome`
unfoldable pub reply_outcome : Text → Result ReplyError Unit
reply_outcome text =
    let first = first_line (head? (lines text)) in
    if text_eq first (codes "Bad rconpassword.")
    then err bad_password
    else if text_eq first (codes "No rconpassword set on the server.")
    then err not_enabled
    else ok tt

pub record RconPlayer : Type 0 where
  pub slot : ℕ
  pub score : ℤ
  pub ping : Option ℕ
  pub name : Text

pub record RconStatus : Type 0 where
  pub map : Option Text
  pub players : List RconPlayer

-- The loop of `token_spans` from an index, with where the open token starts.
abbrev pub span_step : Bool → Option ℕ → ℕ → (Option ℕ → List (ℕ × ℕ)) → List (ℕ × ℕ)
span_step true (some begin) index later = (begin, index) ∷ later none
span_step true none index later = later none
span_step false none index later = later (some index)
span_step false (some begin) index later = later (some begin)

abbrev pub last_span : Option ℕ → ℕ → List (ℕ × ℕ)
last_span none index = []
last_span (some begin) index = (begin, index) ∷ []

unfoldable pub spans_loop : Text → ℕ → Option ℕ → List (ℕ × ℕ)
spans_loop [] index start = last_span start index
spans_loop (c ∷ s) index start =
    span_step (is_whitespace c) start index (λ next. spans_loop s (index + 1) next)

-- `token_spans`
unfoldable pub token_spans : Text → List (ℕ × ℕ)
unfolding spans_loop
token_spans line = spans_loop line 0 none

abbrev pub slice : Text → ℕ × ℕ → Text
slice line (begin, end) = take (end - begin) (drop begin line)

-- The ping of a client that is not fully in is left out.
abbrev pub ping_of : Text → Option (Option ℕ)
ping_of value =
    if text_eq value (codes "CNCT") || text_eq value (codes "ZMBI")
    then some none
    else and_then (parse_unsigned u32_max value) (λ ping. some (some ping))

abbrev pub row_name : Text → ℕ × ℕ → ℕ × ℕ → Text
row_name line first last = trim (filter (λ c. not (is_control c)) (slice line (first.0, last.1)))

-- The row's player, if every column that is checked is a number: the slot, the score, the ping, the
-- time of the last message and the port.
abbrev pub row_of :
    Text → Option ℕ → Option ℤ → Option (Option ℕ) → Option ℕ → Option ℕ → Option RconPlayer
row_of name none score ping message port = none
row_of name (some slot) none ping message port = none
row_of name (some slot) (some score) none message port = none
row_of name (some slot) (some score) (some ping) none port = none
row_of name (some slot) (some score) (some ping) (some message) none = none
row_of name (some slot) (some score) (some ping) (some message) (some port) =
    some (record { slot = slot; score = score; ping = ping; name = name })

-- The player of a line with its spans, at least eight.
unfoldable pub row_player : Text → List (ℕ × ℕ) → Option RconPlayer
row_player line spans =
    let tail = length spans - 4 in
    let word : ℕ → Text = λ i. slice line (get_or spans i (0, 0)) in
    row_of (row_name line (get_or spans 3 (0, 0)) (get_or spans (tail - 1) (0, 0)))
      (parse_unsigned u16_max (word 0)) (parse_i32 (word 1)) (ping_of (word 2))
      (parse_unsigned u64_max (word tail)) (parse_unsigned u64_max (word (tail + 2)))

-- `parse_status_row`
unfoldable pub parse_status_row : Text → Option RconPlayer
unfolding token_spans row_player
parse_status_row line =
    if ltb (length (token_spans line)) 8 then none else row_player line (token_spans line)

abbrev pub pushed : Option RconPlayer → List RconPlayer → List RconPlayer
pushed none players = players
pushed (some player) players = players ++ player ∷ []

-- One line of `parse_status`, by what follows `map:` in it: whether the rule has been met, and the
-- status.
abbrev pub line_step : Option Text → Bool → RconStatus → Text → Bool × RconStatus
line_step (some name) rows status line = (rows, record status { map = nonempty (trim name) })
line_step none rows status line =
    let ruled = starts_with (codes "---") (trim line) in
    (
      rows || ruled,
      if not ruled && (rows && not (is_empty (trim line)))
          then record status { players = pushed (parse_status_row line) status.players }
          else status,
    )

-- The loop of `parse_status`.
unfoldable pub status_loop : Bool × RconStatus → List Text → RconStatus
unfolding parse_status_row
status_loop (rows, status) [] = status
status_loop (rows, status) (line ∷ rest) =
    status_loop (line_step (strip_prefix (codes "map:") (trim line)) rows status line) rest

-- `parse_status`
unfoldable pub parse_status : Text → RconStatus
unfolding status_loop
parse_status text = status_loop (false, record { map = none; players = [] }) (lines text)
