-- ===== src/Text/Number.antt =====
-- `to_string` of an unsigned number and `parse` of a number.
use reveille.Prelude.{
  OnSome, ℕ, zero, suc, ◌+◌, ◌-◌, ◌*◌, ◌/◌, ◌%◌, ◌^◌, ◌≤◌, ◌<◌, ◌≡◌, refl, ap, ◌∙◌, Bool, true,
  false, [], ◌∷◌, Option, none, some, arith, ltb, leb, ◌==◌, if◌then◌else◌, length, all, inl, inr,
  Bool-cases,
}
use native.Mathlib.Nat.{pow-suc}
use reveille.Text.Chars.{Text, is_ascii_digit, is_empty}

-- The decimal digits of `n` before `acc`; one round for each digit.
decimal : ℕ → ℕ → Text → Text
decimal zero n acc = acc
decimal (suc fuel) n acc =
    let digits = (48 + n % 10) ∷ acc in
    let rest = decimal fuel (n / 10) digits in if ltb n 10 then digits else rest

-- `n + 1` rounds are enough, since `n` has at most that many digits.
unfoldable pub to_text : ℕ → Text
unfolding decimal
to_text n = decimal (suc n) n []

unfoldable pub parse_digits : ℕ → Text → Option ℕ
unfolding is_ascii_digit
parse_digits acc [] = some acc
parse_digits acc (c ∷ s) =
    let rest = parse_digits (acc * 10 + (c - 48)) s in if is_ascii_digit c then rest else none

at_least_one : Text → Option ℕ
at_least_one [] = none
at_least_one (c ∷ s) = parse_digits 0 (c ∷ s)

unsigned_digits : Text → Option ℕ
unfolding parse_digits at_least_one
unsigned_digits [] = none
unsigned_digits (c ∷ s) = if c == b'+' then at_least_one s else at_least_one (c ∷ s)

-- A number of at most `limit`, as a check on the digits read so far would find it.
below_limit : ℕ → Option ℕ → Option ℕ
below_limit limit none = none
below_limit limit (some n) = if leb n limit then some n else none

-- `parse` into an unsigned type whose greatest value is `limit`: one sign `+` may stand first.
unfoldable pub parse_unsigned : ℕ → Text → Option ℕ
unfolding unsigned_digits below_limit
parse_unsigned limit s = below_limit limit (unsigned_digits s)

pub parse_unsigned-bounded :
    (limit : ℕ) (s : Text) → OnSome (λ n. n ≤ limit) (parse_unsigned limit s)
unfolding parse_unsigned below_limit
parse_unsigned-bounded limit s = below_limit-bounded limit (unsigned_digits s)
  where
    below_limit-bounded : (limit : ℕ) (o : Option ℕ) → OnSome (λ n. n ≤ limit) (below_limit limit o)
    below_limit-bounded limit none = tt
    below_limit-bounded limit (some n) = ground arith

abbrev pub u16_max : ℕ
u16_max = 0xffff

abbrev pub u32_max : ℕ
u32_max = 0xffff_ffff

abbrev pub u64_max : ℕ
u64_max = 0xffff_ffff_ffff_ffff

-- A signed integer of the source; `negsuc n` is `-(n + 1)`.
pub data ℤ : Type 0 where
  pos : ℕ → ℤ
  negsuc : ℕ → ℤ

unfoldable pub ℤ_eq : ℤ → ℤ → Bool
ℤ_eq (pos a) (pos b) = a == b
ℤ_eq (negsuc a) (negsuc b) = a == b
ℤ_eq _ _ = false

pub ℤ_eq-true : (a b : ℤ) → ℤ_eq a b ≡ true → a ≡ b
unfolding ℤ_eq
ℤ_eq-true (pos a) (pos b) h = ground arith
ℤ_eq-true (negsuc a) (negsuc b) h = ground arith
ℤ_eq-true (pos a) (negsuc b) h = cc
ℤ_eq-true (negsuc a) (pos b) h = cc

pub ℤ_eq_refl : (a : ℤ) → ℤ_eq a a ≡ true
unfolding ℤ_eq
ℤ_eq_refl (pos a) = ground arith
ℤ_eq_refl (negsuc a) = ground arith

negative : Option ℕ → Option ℤ
negative none = none
negative (some zero) = some (pos 0)
negative (some (suc n)) = if leb n 0x7fff_ffff then some (negsuc n) else none

positive : Option ℕ → Option ℤ
positive none = none
positive (some n) = if leb n 0x7fff_ffff then some (pos n) else none

-- `parse::<i32>`: one sign may stand first.
unfoldable pub parse_i32 : Text → Option ℤ
unfolding at_least_one parse_digits negative positive
parse_i32 [] = none
parse_i32 (c ∷ s) =
    if c == b'-'
    then negative (at_least_one s)
    else if c == b'+'
    then positive (at_least_one s)
    else positive (at_least_one (c ∷ s))

-- `i32::from_le_bytes`: the number is read as a two's complement word.
unfoldable pub i32_of_le_bytes : ℕ → ℕ → ℕ → ℕ → ℤ
i32_of_le_bytes a b c d =
    let word = a + 256 * b + 256 * 256 * c + 256 * 256 * 256 * d in
    if ltb word 0x8000_0000 then pos word else negsuc (0xffff_ffff - word)

is_ascii_digit-digit : (n : ℕ) → is_ascii_digit (48 + n % 10) ≡ true
unfolding is_ascii_digit
is_ascii_digit-digit n = ground arith

parse_digits-decimal :
    (fuel n : ℕ) (s : Text) → n < fuel → parse_digits 0 (decimal fuel n s) ≡ parse_digits n s
unfolding decimal parse_digits
parse_digits-decimal zero n s h = elim h [ ]
parse_digits-decimal (suc fuel) n s h = elim (Bool-cases (ltb n 10)) [
  | inl small ↦ rw small (ground arith)
  | inr big ↦
      rw big
        (parse_digits-decimal fuel (n / 10) ((48 + n % 10) ∷ s) (ground arith) ∙ last_digit n s)
]
  where
    last_digit : (n : ℕ) (s : Text) → parse_digits (n / 10) ((48 + n % 10) ∷ s) ≡ parse_digits n s
    last_digit n s = rw (is_ascii_digit-digit n) (
        ap (λ m. parse_digits m s)
          (let e : n / 10 * 10 + (48 + n % 10 - 48) ≡ n = omega arith in e))

-- A decimal holds digits alone, and at least one.
decimal-digits :
    (fuel n : ℕ) (s : Text)
    → all is_ascii_digit s ≡ true
    → all is_ascii_digit (decimal fuel n s) ≡ true
unfolding decimal is_ascii_digit
decimal-digits zero n s h = h
decimal-digits (suc fuel) n s h = ground (arith, decimal-digits fuel (n / 10) ((48 + n % 10) ∷ s))

pub all-is_ascii_digit-to_text : (n : ℕ) → all is_ascii_digit (to_text n) ≡ true
unfolding to_text
all-is_ascii_digit-to_text n = decimal-digits (suc n) n [] refl

decimal-nonempty : (fuel n c : ℕ) (s : Text) → is_empty (decimal fuel n (c ∷ s)) ≡ false
unfolding decimal
decimal-nonempty zero n c s = refl
decimal-nonempty (suc fuel) n c s =
    ground (arith, decimal-nonempty fuel (n / 10) (48 + n % 10) (c ∷ s))

pub is_empty-to_text : (n : ℕ) → is_empty (to_text n) ≡ false
unfolding to_text decimal
is_empty-to_text n = ground (arith, decimal-nonempty n (n / 10) (48 + n % 10) [])

-- What begins with a digit is read as its digits.
digits_start :
    (s : Text)
    → all is_ascii_digit s ≡ true
    → is_empty s ≡ false
    → unsigned_digits s ≡ parse_digits 0 s
unfolding unsigned_digits is_ascii_digit
digits_start [] d e = cc
digits_start (c ∷ s) d e = ground arith

pub parse_digits-to_text : (n : ℕ) → parse_digits 0 (to_text n) ≡ some n
unfolding to_text
parse_digits-to_text n =
    parse_digits-decimal (suc n) n [] (omega arith) ∙ unfold parse_digits in refl

-- The decimal of a number within the limit is parsed as that number.
pub parse_unsigned-to_text : (limit n : ℕ) → n ≤ limit → parse_unsigned limit (to_text n) ≡ some n
unfolding parse_unsigned
parse_unsigned-to_text limit n h = ground (
  arith,
  digits_start (to_text n) (all-is_ascii_digit-to_text n) (is_empty-to_text n),
  parse_digits-to_text n,
)

-- A number below `10 ^ (k + 1)` has at most `k + 1` digits.
decimal-length :
    (k fuel n : ℕ) (s : Text) → n < 10 ^ suc k → length (decimal fuel n s) ≤ suc k + length s
unfolding decimal
decimal-length k zero n s h = omega arith
decimal-length zero (suc fuel) n s h = ground (arith, pow-suc 10 0)
decimal-length (suc k) (suc fuel) n s h =
    ground (arith, pow-suc 10 (suc k), decimal-length k fuel (n / 10) ((48 + n % 10) ∷ s))

pub length-to_text : (k n : ℕ) → n < 10 ^ suc k → length (to_text n) ≤ suc k
unfolding to_text
length-to_text k n h = omega (arith, decimal-length k (suc n) n [] h)
