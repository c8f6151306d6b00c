-- ===== src/Rcon/Command/Values.antt =====
-- The characters and lengths of the values that an admin action carries.
use reveille.Prelude.{
  ℕ, ◌+◌, ◌≤◌, ◌≡◌, refl, ap, sym, ◌∙◌, Bool, true, false, not, ◌&&◌, List, [], ◌∷◌, ◌++◌, ltb,
  ◌==◌, if◌then◌else◌, all, find, length, Result, ok, err, ◌>>◌, arith, bind-eq-ok, All, Bool-cases,
  inl, inr, all-append, length-append,
}
use reveille.Text.{
  Text, codes, is_empty, is_ascii_digit, is_ascii_alphanumeric, is_ascii_graphic, trim, byte_len,
  utf8_width,
}
use reveille.Text.Split.{join}
use reveille.Text.Number.{to_text, u16_max, length-to_text, all-is_ascii_digit-to_text}
use reveille.Rcon.Command.{
  InvalidValue, bounded, no_bad, is_map_char, leaves_folder, map_name, not_a_map_name, is_line_char,
  is_chat_char, chat_text, is_cvar_char, cvar_name, raw_command, rotation_length, rotation,
  RconAction, status, kick, ban, tell, say, change_map, restart_round, read_cvar, set_rotation, raw,
}

find-all :
    (p : ℕ → Bool) (s : Text) {u : Unit} → no_bad (find (λ c. not (p c)) s) ≡ ok u → all p s ≡ true
find-all p [] h = refl
find-all p (c ∷ s) h = elim (Bool-cases (p c)) [
  | inl e ↦ ground (arith, find-all p s)
  | inr e ↦ ground arith
]

bounded-length : (s : Text) (limit : ℕ) {u : Unit} → bounded s limit ≡ ok u → length s ≤ limit
unfolding bounded
bounded-length s limit h = ground arith

abbrev pub Fits : (ℕ → Bool) → ℕ → Text → Type 0
Fits p limit s = (all p s ≡ true) × (length s ≤ limit)

accepted-Fits :
    (p : ℕ → Bool) (limit : ℕ) (v t : Text) (last : Result InvalidValue Text)
    → (last ≡ ok t → v ≡ t)
    → (bounded v limit >> no_bad (find (λ c. not (p c)) v) >> last) ≡ ok t
    → Fits p limit t
accepted-Fits p limit v t last value h =
    let checks = no_bad (find (λ c. not (p c)) v) in
    let (u, checked, e) = bind-eq-ok (bounded v limit >> checks) (λ _. last) h in
    let (w, short, good) = bind-eq-ok (bounded v limit) (λ _. checks) checked in
    let same = value e in
    (
      ap (all p) (sym same) ∙ find-all p v good,
      omega (arith, bounded-length v limit short, ap length same),
    )

ok-eq : (v t : Text) → ◌≡◌ {A = Result InvalidValue Text} (ok v) (ok t) → v ≡ t
ok-eq v t h = cc

unless-eq : (b : Bool) (e : InvalidValue) (v t : Text) → (if b then err e else ok v) ≡ ok t → v ≡ t
unless-eq true e v t h = cc
unless-eq false e v t h = cc

pub all-imp :
    (p q : ℕ → Bool)
    → ((c : ℕ) → p c ≡ true → q c ≡ true)
    → (s : Text) → all p s ≡ true
    → all q s ≡ true
all-imp p q imp [] h = refl
all-imp p q imp (c ∷ s) h = ground (arith, imp c, all-imp p q imp s)

-- What the guards of the console's values let through.
abbrev pub IsMapName : Text → Type 0
IsMapName name = (value : Text) × (map_name value ≡ ok name)

-- A value that the constructors of an action's arguments accepted; a slot is a `u16`.
abbrev pub IsAccepted : RconAction → Type 0
IsAccepted status = Unit
IsAccepted (kick slot) = slot ≤ u16_max
IsAccepted (ban slot) = slot ≤ u16_max
IsAccepted (tell slot text) = (slot ≤ u16_max) × ((value : Text) × (chat_text value ≡ ok text))
IsAccepted (say text) = (value : Text) × (chat_text value ≡ ok text)
IsAccepted (change_map name) = IsMapName name
IsAccepted restart_round = Unit
IsAccepted (read_cvar name) = (value : Text) × (cvar_name value ≡ ok name)
IsAccepted (set_rotation maps) = All IsMapName maps × (rotation maps ≡ ok maps)
IsAccepted (raw line) = (value : Text) × (raw_command value ≡ ok line)

-- The characters of an action's lines: a command separator stands in a line typed by hand alone.
abbrev pub is_sent_char : RconAction → ℕ → Bool
is_sent_char (raw line) c = is_line_char c
is_sent_char _ c = is_line_char c && not (c == b';')

unfoldable pub is_plain : ℕ → Bool
is_plain c = is_line_char c && not (c == b';')

digit-plain : (c : ℕ) → is_ascii_digit c ≡ true → is_plain c ≡ true
unfolding is_plain is_ascii_digit is_ascii_graphic
digit-plain c h = ground arith

chat-plain : (c : ℕ) → is_chat_char c ≡ true → is_plain c ≡ true
unfolding is_plain
chat-plain c h = ground arith

pub map-plain : (c : ℕ) → is_map_char c ≡ true → is_plain c ≡ true
unfolding is_plain is_ascii_alphanumeric is_ascii_graphic
map-plain c h = ground arith

cvar-plain : (c : ℕ) → is_cvar_char c ≡ true → is_plain c ≡ true
unfolding is_plain is_ascii_alphanumeric is_ascii_graphic
cvar-plain c h = ground arith

pub slot-Fits : (slot : ℕ) → slot ≤ u16_max → Fits is_plain 5 (to_text slot)
slot-Fits slot h = (
  all-imp is_ascii_digit is_plain digit-plain (to_text slot) (all-is_ascii_digit-to_text slot),
  length-to_text 4 slot (ground arith),
)

pub Fits-imp :
    (p q : ℕ → Bool)
    → ((c : ℕ) → p c ≡ true → q c ≡ true)
    → (n m : ℕ) → n ≤ m
    → (s : Text) → Fits p n s
    → Fits q m s
Fits-imp p q imp n m le s h = (all-imp p q imp s h.0, omega (arith, h.1))

pub Fits-append :
    (p : ℕ → Bool) (n m : ℕ) (a b : Text) → Fits p n a → Fits p m b → Fits p (n + m) (a ++ b)
Fits-append p n m a b ha hb =
    (ground (arith, all-append p a b, ha.0, hb.0), omega (arith, length-append a b, ha.1, hb.1))

pub chat_text-Fits : (value text : Text) → chat_text value ≡ ok text → Fits is_plain 150 text
unfolding chat_text
chat_text-Fits value text h =
    Fits-imp is_chat_char is_plain chat-plain 150 150 (omega arith) text (
      accepted-Fits is_chat_char 150 (trim value) text (ok (trim value)) (ok-eq (trim value) text)
        h)

pub cvar_name-Fits : (value name : Text) → cvar_name value ≡ ok name → Fits is_plain 64 name
unfolding cvar_name
cvar_name-Fits value name h =
    Fits-imp is_cvar_char is_plain cvar-plain 64 64 (omega arith) name
      (accepted-Fits is_cvar_char 64 value name (ok value) (ok-eq value name) h)

pub map_name-Fits : (value name : Text) → map_name value ≡ ok name → Fits is_map_char 64 name
unfolding map_name
map_name-Fits value name h =
    let v = trim value in
    accepted-Fits is_map_char 64 v name (if leaves_folder v then err not_a_map_name else ok v)
      (unless-eq (leaves_folder v) not_a_map_name v name) h

raw_chars :
    (v line : Text)
    → ltb 800 (length v) ≡ false
    → (no_bad (find (λ c. not (is_line_char c)) v) >> ok v) ≡ ok line
    → Fits is_line_char 800 line
raw_chars v line short h =
    let checks = no_bad (find (λ c. not (is_line_char c)) v) in
    let (u, good, e) = bind-eq-ok checks (λ _. ok v) h in
    let same = ok-eq v line e in
    (
      ap (all is_line_char) (sym same) ∙ find-all is_line_char v good,
      ground (arith, short, ap length same),
    )

pub raw_command-Fits :
    (value line : Text) → raw_command value ≡ ok line → Fits is_line_char 800 line
unfolding raw_command
raw_command-Fits value line h =
    let v = trim value in
    elim (Bool-cases (is_empty v)) [
      | inl e ↦ ground arith
      | inr e ↦ elim (Bool-cases (ltb 800 (length v))) [
        | inl long ↦ ground arith
        | inr short ↦ raw_chars v line short (ground arith)
      ]
    ]

length-byte_len : (s : Text) → length s ≤ byte_len s
unfolding byte_len utf8_width
length-byte_len [] = omega arith
length-byte_len (c ∷ s) = ground (arith, length-byte_len s)

none-Fits : Fits is_plain 0 []
none-Fits = (refl, omega arith)

space-Fits : Fits is_plain 1 (codes " ")
unfolding is_plain
space-Fits = (refl, omega arith)

map-Fits : (m : Text) (n : ℕ) → length m ≤ n → IsMapName m → Fits is_plain n m
map-Fits m n h accepted =
    let chars = map_name-Fits accepted.0 m accepted.1 in
    (all-imp is_map_char is_plain map-plain m chars.0, h)

-- The characters of the maps of a rotation, each followed by a separator.
join-Fits :
    (maps : List Text)
    → All IsMapName maps
    → Fits is_plain (rotation_length maps) (join (codes " ") maps)
unfolding join rotation_length
join-Fits [] h = none-Fits
join-Fits (m ∷ []) h = map-Fits m (byte_len m + 1 + 0) (omega (arith, length-byte_len m)) h.0
join-Fits (m ∷ n ∷ maps) h =
    let rest = rotation_length (n ∷ maps) in
    Fits-imp is_plain is_plain (λ c e. e) (byte_len m + (1 + rest)) (byte_len m + 1 + rest)
      (omega arith) (join (codes " ") (m ∷ n ∷ maps))
      (Fits-append is_plain (byte_len m) (1 + rest) m (b' ' ∷ join (codes " ") (n ∷ maps))
        (map-Fits m (byte_len m) (length-byte_len m) h.0)
        (Fits-append is_plain 1 rest (codes " ") (join (codes " ") (n ∷ maps)) space-Fits
          (join-Fits (n ∷ maps) h.1)))

pub rotation-Fits :
    (maps : List Text)
    → All IsMapName maps
    → rotation maps ≡ ok maps
    → Fits is_plain 700 (join (codes " ") maps)
unfolding rotation
rotation-Fits maps h e =
    Fits-imp is_plain is_plain (λ c p. p) (rotation_length maps) 700 (ground arith)
      (join (codes " ") maps) (join-Fits maps h)
