-- ===== src/Text/Chars.antt =====
-- Characters and their classes, trimming, and the ASCII case.
use Prim.Native.Char.{code}
use reveille.Prelude.{
  ℕ, ◌+◌, ◌-◌, String, ◌≡◌, refl, ◌↔◌, Bool, true, false, ◌&&◌, ◌||◌, List, [], ◌∷◌, map, arith,
  ltb, ◌==◌, within, if◌then◌else◌,
}

-- A `String` or `&str`, by its code points.
abbrev pub Text : Type 0
Text = List ℕ

-- A `Vec<u8>` or `&[u8]`.
abbrev pub Bytes : Type 0
Bytes = List ℕ

-- A literal of the source, which is ASCII in every use.
abbrev pub codes : String → Text
codes String.[] = []
codes (String.◌∷◌ c s) = code c ∷ codes s

-- Equality of texts.
unfoldable pub text_eq : Text → Text → Bool
text_eq [] [] = true
text_eq (x ∷ xs) (y ∷ ys) = x == y && text_eq xs ys
text_eq _ _ = false

pub text_eq_iff : (a b : Text) → (text_eq a b ≡ true) ↔ (a ≡ b)
unfolding text_eq
text_eq_iff (x ∷ a) (y ∷ b) = ground (arith, text_eq_iff a b)
text_eq_iff _ _ = ground arith

pub text_eq_refl : (a : Text) → text_eq a a ≡ true
text_eq_refl a = (text_eq_iff a a).1 refl

-- `is_empty`
abbrev pub is_empty {ℓ} : {A : Type ℓ} → List A → Bool
is_empty [] = true
is_empty (x ∷ xs) = false

-- `char::is_whitespace`, Unicode's `White_Space`.
unfoldable pub is_whitespace : ℕ → Bool
is_whitespace c =
    within 9 13 c
    || c == 32
    || c == 0x85
    || c == 0xa0
    || c == 0x1680
    || within 0x2000 0x200a c
    || within 0x2028 0x2029 c
    || c == 0x202f
    || c == 0x205f
    || c == 0x3000

-- `char::is_control`, the category Cc.
unfoldable pub is_control : ℕ → Bool
is_control c = ltb c 32 || within 127 159 c

unfoldable pub is_ascii_digit : ℕ → Bool
is_ascii_digit c = within b'0' b'9' c

unfoldable pub is_ascii_alphanumeric : ℕ → Bool
is_ascii_alphanumeric c = within b'0' b'9' c || within b'A' b'Z' c || within b'a' b'z' c

unfoldable pub is_ascii_graphic : ℕ → Bool
is_ascii_graphic c = within 33 126 c

-- `to_ascii_lowercase` of a character and of a text.
unfoldable pub lower : ℕ → ℕ
lower c = if within b'A' b'Z' c then c + 32 else c

abbrev pub to_ascii_lowercase : Text → Text
to_ascii_lowercase = map lower

pub lower_idem : (c : ℕ) → lower (lower c) ≡ lower c
unfolding lower
lower_idem c = ground arith

pub to_ascii_lowercase_idem :
    (s : Text) → to_ascii_lowercase (to_ascii_lowercase s) ≡ to_ascii_lowercase s
to_ascii_lowercase_idem [] = refl
to_ascii_lowercase_idem (c ∷ s) = cc (lower_idem c, to_ascii_lowercase_idem s)

-- `to_ascii_uppercase`
unfoldable pub upper : ℕ → ℕ
upper c = if within b'a' b'z' c then c - 32 else c

abbrev pub to_ascii_uppercase : Text → Text
to_ascii_uppercase = map upper

-- `eq_ignore_ascii_case`
unfoldable pub eq_ignore_ascii_case : Text → Text → Bool
eq_ignore_ascii_case a b = text_eq (to_ascii_lowercase a) (to_ascii_lowercase b)

-- `replace` of one character by another.
abbrev pub replace_char : ℕ → ℕ → Text → Text
replace_char from to = map (λ c. if c == from then to else c)

-- The length in bytes of a text as UTF-8, which `len` returns.
unfoldable pub utf8_width : ℕ → ℕ
utf8_width c = if ltb c 0x80 then 1 else if ltb c 0x800 then 2 else if ltb c 0x10000 then 3 else 4

unfoldable pub byte_len : Text → ℕ
unfolding utf8_width
byte_len [] = 0
byte_len (c ∷ s) = utf8_width c + byte_len s
