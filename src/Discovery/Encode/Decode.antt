-- ===== src/Discovery/Encode/Decode.antt =====
-- `gs_encode` against a decoder of its own: nothing is lost, and the text is safe in a query.
use Prim.Native.Nat.{bit_and, bit_or}
use reveille.Prelude.{
  ℕ, suc, ◌+◌, ◌*◌, ◌/◌, ◌%◌, ◌<◌, ◌≡◌, refl, ◌∙◌, Bool, true, List, [], ◌∷◌, ◌++◌, arith, ◌==◌,
  ==_iff, if◌then◌else◌, length, All, All-append, any, map, every_below, every_below_lem,
}
use reveille.Text.{Text, Bytes}
use reveille.Discovery.Encode.{shl, indices, letter, base64_alphabet, gs_encode}

-- The place of a letter in the alphabet, searched from the front.
unfoldable pub index_of : ℕ → Bytes → ℕ
index_of c [] = 0
index_of c (x ∷ l) = if x == c then 0 else suc (index_of c l)

abbrev pub sextet : ℕ → ℕ
sextet c = index_of c base64_alphabet

-- Three bytes from four letters.
unfoldable pub decode : Text → Bytes
unfolding index_of
decode (p ∷ q ∷ r ∷ s ∷ rest) =
    (sextet p * 4 + sextet q / 16)
    ∷ (sextet q % 16 * 16 + sextet r / 4)
    ∷ (sextet r % 4 * 64 + sextet s)
    ∷ decode rest
decode _ = []

-- A message whose last chunk is filled up with zero bytes.
abbrev pub padded : Bytes → Bytes
padded [] = []
padded (a ∷ []) = a ∷ 0 ∷ 0 ∷ []
padded (a ∷ b ∷ []) = a ∷ b ∷ 0 ∷ []
padded (a ∷ b ∷ c ∷ rest) = a ∷ b ∷ c ∷ padded rest

letter_table : every_below 64 (λ i. sextet (letter i) == i) ≡ true
unfolding every_below index_of
letter_table = refl

sextet-letter : (i : ℕ) → i < 64 → sextet (letter i) ≡ i
sextet-letter i h = (==_iff _ i).0 (every_below_lem 64 _ i letter_table h)

second_table :
    every_below 256 (λ a. every_below 16 (λ b. bit_or (shl (bit_and a 0x03) 4) b == a % 4 * 16 + b))
    ≡ true
unfolding every_below
second_table = refl

third_table :
    every_below 256 (λ a. every_below 4 (λ b. bit_or (shl (bit_and a 0x0f) 2) b == a % 16 * 4 + b))
    ≡ true
unfolding every_below
third_table = refl

last_table : every_below 256 (λ a. bit_and a 0x3f == a % 64) ≡ true
unfolding every_below
last_table = refl

-- The indices by arithmetic.
abbrev sums : ℕ → ℕ → ℕ → List ℕ
sums a b c = (a / 4) ∷ (a % 4 * 16 + b / 16) ∷ (b % 16 * 4 + c / 64) ∷ (c % 64) ∷ []

indices-sums : (a b c : ℕ) → a < 256 → b < 256 → c < 256 → indices a b c ≡ sums a b c
unfolding indices
indices-sums a b c ha hb hc = cc (
  (==_iff _ _).0
      (every_below_lem 16 _ (b / 16) (every_below_lem 256 _ a second_table ha) (omega arith)),
  (==_iff _ _).0
      (every_below_lem 4 _ (c / 64) (every_below_lem 256 _ b third_table hb) (omega arith)),
  (==_iff _ _).0 (every_below_lem 256 _ c last_table hc),
)

abbrev pub AreBytes : Bytes → Type 0
AreBytes = All (λ b. b < 256)

decode-letters :
    (i j k l : ℕ) (rest : Text)
    → i < 64
    → j < 64
    → k < 64
    → l < 64
    → decode (letter i ∷ letter j ∷ letter k ∷ letter l ∷ rest)
      ≡ (i * 4 + j / 16) ∷ (j % 16 * 16 + k / 4) ∷ (k % 4 * 64 + l) ∷ decode rest
unfolding decode
decode-letters i j k l rest hi hj hk hl =
    cc (sextet-letter i hi, sextet-letter j hj, sextet-letter k hk, sextet-letter l hl)

decode-chunk :
    (a b c : ℕ) (rest : Text)
    → a < 256
    → b < 256
    → c < 256
    → decode (map letter (indices a b c) ++ rest) ≡ a ∷ b ∷ c ∷ decode rest
decode-chunk a b c rest ha hb hc = rw (indices-sums a b c ha hb hc) (
    decode-letters (a / 4) (a % 4 * 16 + b / 16) (b % 16 * 4 + c / 64) (c % 64) rest (omega arith)
      (omega arith) (omega arith) (omega arith)
    ∙ bytes a b c rest ha hb hc)
  where
    bytes :
        (a b c : ℕ) (rest : Text)
        → a < 256
        → b < 256
        → c < 256
        → ◌≡◌ {A = Bytes}
            ((a / 4 * 4 + (a % 4 * 16 + b / 16) / 16)
              ∷ ((a % 4 * 16 + b / 16) % 16 * 16 + (b % 16 * 4 + c / 64) / 4)
              ∷ ((b % 16 * 4 + c / 64) % 4 * 64 + c % 64)
              ∷ decode rest)
            (a ∷ b ∷ c ∷ decode rest)
    bytes a b c rest ha hb hc = ground arith

decode_nil : decode [] ≡ []
unfolding decode
decode_nil = refl

-- The decoder gives back the message, filled up with zero bytes to a multiple of three.
pub decode-gs_encode : (m : Bytes) → AreBytes m → decode (gs_encode m) ≡ padded m
unfolding gs_encode
decode-gs_encode [] h = decode_nil
decode-gs_encode (a ∷ []) h = decode-chunk a 0 0 [] h.0 (omega arith) (omega arith) ∙ rw decode_nil
decode-gs_encode (a ∷ b ∷ []) h = decode-chunk a b 0 [] h.0 h.1.0 (omega arith) ∙ rw decode_nil
decode-gs_encode (a ∷ b ∷ c ∷ rest) h =
    decode-chunk a b c (gs_encode rest) h.0 h.1.0 h.1.1.0 ∙ rw (decode-gs_encode rest h.1.1.1)

-- A character of the alphabet.
abbrev pub in_alphabet : ℕ → Bool
in_alphabet c = any (λ x. x == c) base64_alphabet

alphabet_table : every_below 64 (λ i. in_alphabet (letter i)) ≡ true
unfolding every_below
alphabet_table = refl

abbrev pub IsSafe : Text → Type 0
IsSafe = All (λ c. in_alphabet c ≡ true)

indices-IsSafe : (a b c : ℕ) → a < 256 → b < 256 → c < 256 → IsSafe (map letter (indices a b c))
indices-IsSafe a b c ha hb hc = rw (indices-sums a b c ha hb hc) (
  at (a / 4) (omega arith),
  (
    at (a % 4 * 16 + b / 16) (omega arith),
    (at (b % 16 * 4 + c / 64) (omega arith), (at (c % 64) (omega arith), tt)),
  ),
)
  where
    at : (i : ℕ) → i < 64 → in_alphabet (letter i) ≡ true
    at i h = every_below_lem 64 _ i alphabet_table h

-- Every character of an encoding is in the alphabet, so none is the `\` that ends a field.
pub gs_encode-IsSafe : (m : Bytes) → AreBytes m → IsSafe (gs_encode m)
unfolding gs_encode
gs_encode-IsSafe [] h = tt
gs_encode-IsSafe (a ∷ []) h = indices-IsSafe a 0 0 h.0 (omega arith) (omega arith)
gs_encode-IsSafe (a ∷ b ∷ []) h = indices-IsSafe a b 0 h.0 h.1.0 (omega arith)
gs_encode-IsSafe (a ∷ b ∷ c ∷ rest) h =
    All-append (λ c. in_alphabet c ≡ true) (map letter (indices a b c)) (gs_encode rest)
      (indices-IsSafe a b c h.0 h.1.0 h.1.1.0) (gs_encode-IsSafe rest h.1.1.1)

-- Four letters for each three bytes, begun or whole, as `String::with_capacity` reserves.
pub length-gs_encode : (m : Bytes) → length (gs_encode m) ≡ (length m + 2) / 3 * 4
unfolding gs_encode indices
length-gs_encode [] = omega arith
length-gs_encode (a ∷ []) = omega arith
length-gs_encode (a ∷ b ∷ []) = omega arith
length-gs_encode (a ∷ b ∷ c ∷ rest) = omega (arith, length-gs_encode rest)
