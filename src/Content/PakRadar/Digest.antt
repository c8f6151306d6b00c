-- ===== src/Content/PakRadar/Digest.antt =====
-- A digest is written and read back.
use reveille.Prelude.{
  ℕ, ◌*◌, ◌/◌, ◌%◌, ◌<◌, ◌≡◌, refl, ap, Bool, true, false, not, ◌&&◌, [], ◌∷◌, Option, none, some,
  All, all, length, ◌==◌, ok, arith, every_below, every_below_lem,
}
use reveille.Text.{Bytes, byte_len, is_whitespace, trim_by_none, utf8_width}
use reveille.Content.PakRadar.{hex_digit, hex_pairs, parse_md5, lower_digit, show_md5}

-- The numbers are those of bytes.
abbrev pub AreDigestBytes : Bytes → Type 0
AreDigestBytes = All (λ b. b < 256)

abbrev reads_back : ℕ → Bool
reads_back n = elim (hex_digit (lower_digit n)) [ none ↦ false | some m ↦ m == n ]

abbrev stands_alone : ℕ → Bool
stands_alone n = not (is_whitespace (lower_digit n)) && utf8_width (lower_digit n) == 1

hex_digit-lower_digit : (n : ℕ) → n < 16 → hex_digit (lower_digit n) ≡ some n
unfolding every_below hex_digit
hex_digit-lower_digit n h =
    of_option (hex_digit (lower_digit n)) (every_below_lem 16 reads_back n (refl) h)
  where
    of_option :
        (o : Option ℕ)
        → elim o as (λ x. Bool) [ none ↦ false | some m ↦ m == n ] ≡ true
        → o ≡ some n
    of_option none e = ground arith
    of_option (some m) e = ground arith

lower_digit_alone : (n : ℕ) → n < 16 → stands_alone n ≡ true
unfolding every_below is_whitespace utf8_width
lower_digit_alone n h = every_below_lem 16 stands_alone n (refl) h

hex_pairs-show_md5 :
    (bytes : Bytes) → AreDigestBytes bytes → hex_pairs (show_md5 bytes) ≡ some bytes
unfolding hex_pairs show_md5
hex_pairs-show_md5 [] h = refl
hex_pairs-show_md5 (b ∷ bytes) h =
    rw
      (
        hex_digit-lower_digit (b / 16) (omega (arith, h.0)),
        hex_digit-lower_digit (b % 16) (omega arith),
        hex_pairs-show_md5 bytes h.1,
      )
      (ap (λ n. some (n ∷ bytes)) (omega arith))

pub show_md5-plain :
    (bytes : Bytes)
    → AreDigestBytes bytes
    → (all (λ c. not (is_whitespace c)) (show_md5 bytes) ≡ true)
      × (byte_len (show_md5 bytes) ≡ 2 * length bytes)
unfolding show_md5 byte_len
show_md5-plain [] h = (refl, refl)
show_md5-plain (b ∷ bytes) h =
    let high = lower_digit_alone (b / 16) (omega (arith, h.0)) in
    let low = lower_digit_alone (b % 16) (omega arith) in
    let rest = show_md5-plain bytes h.1 in
    (ground (arith, high, low, rest.0), ground (arith, high, low, rest.1))

-- A digest of sixteen bytes, written as 32 digits, is read back.
pub parse_md5-show_md5 :
    (bytes : Bytes)
    → AreDigestBytes bytes
    → length bytes ≡ 16
    → parse_md5 (show_md5 bytes) ≡ ok bytes
unfolding parse_md5
parse_md5-show_md5 bytes h sixteen =
    let plain = show_md5-plain bytes h in
    rw (trim_by_none is_whitespace (show_md5 bytes) plain.0) (
      rw (let e : (byte_len (show_md5 bytes) == 32) ≡ true = ground (arith, plain.1, sixteen) in e)
        (rw (hex_pairs-show_md5 bytes h) refl))
