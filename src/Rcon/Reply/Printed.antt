-- ===== src/Rcon/Reply/Printed.antt =====
-- What a reply of the console can carry.
use reveille.Prelude.{
  ℕ, ◌+◌, ◌-◌, ◌≡◌, refl, Bool, true, false, not, ◌&&◌, List, [], ◌∷◌, ◌++◌, Option, none, some,
  ltb, length, all, All, All-append, OnSome, filter, ok, Bool-cases, inl, inr, all-filter, get_or,
}
use reveille.Text.{
  Text, Bytes, codes, is_control, is_empty, trim, all-trim_by, is_whitespace, strip_prefix,
  starts_with,
}
use reveille.Text.Number.{ℤ, parse_unsigned, parse_i32, u16_max, u64_max}
use reveille.Text.Split.{lines}
use reveille.Rcon.Reply.{
  parse_print_packet, marker_bytes, print_marker, RconPlayer, RconStatus, row_of, ping_of, row_name,
  row_player, parse_status_row, slice, pushed, line_step, status_loop, parse_status, token_spans,
}

-- A name with no control character.
abbrev pub IsClean : RconPlayer → Type 0
IsClean player = all (λ c. not (is_control c)) player.name ≡ true

row_of-IsClean :
    (name : Text) (slot : Option ℕ) (score : Option ℤ) (ping : Option (Option ℕ))
    (message port : Option ℕ)
    → all (λ c. not (is_control c)) name ≡ true
    → OnSome IsClean (row_of name slot score ping message port)
row_of-IsClean name none score ping message port h = tt
row_of-IsClean name (some slot) none ping message port h = tt
row_of-IsClean name (some slot) (some score) none message port h = tt
row_of-IsClean name (some slot) (some score) (some ping) none port h = tt
row_of-IsClean name (some slot) (some score) (some ping) (some message) none h = tt
row_of-IsClean name (some slot) (some score) (some ping) (some message) (some port) h = h

row_name-clean :
    (line : Text) (first last : ℕ × ℕ)
    → all (λ c. not (is_control c)) (row_name line first last) ≡ true
row_name-clean line first last =
    let raw = slice line (first.0, last.1) in
    all-trim_by (λ c. not (is_control c)) is_whitespace (filter (λ c. not (is_control c)) raw)
      (all-filter (λ c. not (is_control c)) raw)

row_player-IsClean : (line : Text) (spans : List (ℕ × ℕ)) → OnSome IsClean (row_player line spans)
unfolding row_player
row_player-IsClean line spans =
    let tail = length spans - 4 in
    let word : ℕ → Text = λ i. slice line (get_or spans i (0, 0)) in
    row_of-IsClean (row_name line (get_or spans 3 (0, 0)) (get_or spans (tail - 1) (0, 0)))
      (parse_unsigned u16_max (word 0)) (parse_i32 (word 1)) (ping_of (word 2))
      (parse_unsigned u64_max (word tail)) (parse_unsigned u64_max (word (tail + 2)))
      (row_name-clean line (get_or spans 3 (0, 0)) (get_or spans (tail - 1) (0, 0)))

row-IsClean : (line : Text) → OnSome IsClean (parse_status_row line)
unfolding parse_status_row
row-IsClean line = elim (Bool-cases (ltb (length (token_spans line)) 8)) [
  | inl short ↦ rw short tt
  | inr long ↦ rw long (row_player-IsClean line (token_spans line))
]

pushed-IsClean :
    (o : Option RconPlayer) (players : List RconPlayer)
    → OnSome IsClean o
    → All IsClean players
    → All IsClean (pushed o players)
pushed-IsClean none players h a = a
pushed-IsClean (some player) players h a = All-append IsClean players (player ∷ []) a (h, tt)

line_step-IsClean :
    (o : Option Text) (rows : Bool) (status : RconStatus) (line : Text)
    → All IsClean status.players
    → All IsClean (line_step o rows status line).1.players
line_step-IsClean (some name) rows status line h = h
line_step-IsClean none rows status line h =
    let listed =
      not (starts_with (codes "---") (trim line)) && (rows && not (is_empty (trim line))) in
    elim (Bool-cases listed) [
      | inl yes_row ↦
          rw yes_row (pushed-IsClean (parse_status_row line) status.players (row-IsClean line) h)
      | inr no_row ↦ rw no_row h
    ]

status_loop-IsClean :
    (state : Bool × RconStatus) (ls : List Text)
    → All IsClean state.1.players
    → All IsClean (status_loop state ls).players
unfolding status_loop
status_loop-IsClean (rows, status) [] h = h
status_loop-IsClean (rows, status) (line ∷ rest) h =
    let name = strip_prefix (codes "map:") (trim line) in
    status_loop-IsClean (line_step name rows status line) rest
      (line_step-IsClean name rows status line h)

-- Whatever a server prints, no name in its parsed status holds a control character.
pub parse_status-IsClean : (text : Text) → All IsClean (parse_status text).players
unfolding parse_status
parse_status-IsClean text =
    status_loop-IsClean (false, record { map = none; players = [] }) (lines text) tt

-- Console output is read back from a packet with the direction byte and from one without it.
pub parse_print_packet-text :
    (text : Bytes)
    → (parse_print_packet (marker_bytes ++ (print_marker ++ text)) ≡ ok text)
      × (parse_print_packet (marker_bytes ++ (0x01 ∷ (print_marker ++ text))) ≡ ok text)
unfolding parse_print_packet strip_prefix
parse_print_packet-text text = (refl, refl)
