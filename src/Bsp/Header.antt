-- ===== src/Bsp/Header.antt =====
-- A header as an engine tool writes it, and what the reader accepts.
use reveille.Prelude.{
  ℕ, ◌-◌, ◌/◌, ◌%◌, ◌≤◌, ◌<◌, ◌≡◌, refl, true, ◌∷◌, ok, arith, length, Bool-cases, inl, inr,
}
use reveille.Text.{Bytes}
use reveille.Text.Number.{ℤ, pos, negsuc, i32_of_le_bytes}
use reveille.Bsp.{BspHeader, ident_of, read_header, supported}

-- The word that stands for a signed number, and its bytes, the lowest first.
abbrev pub word_of : ℤ → ℕ
word_of (pos n) = n
word_of (negsuc n) = 0xffff_ffff - n

abbrev pub le_bytes : ℕ → Bytes → Bytes
le_bytes w rest = (w % 256) ∷ (w / 256 % 256) ∷ (w / 65536 % 256) ∷ (w / 16777216) ∷ rest

-- A number of 32 bits with a sign.
abbrev pub IsI32 : ℤ → Type 0
IsI32 (pos n) = n < 0x8000_0000
IsI32 (negsuc n) = n < 0x8000_0000

i32_of_le_bytes-le_bytes :
    (z : ℤ)
    → IsI32 z
    → i32_of_le_bytes
        (word_of z % 256)
        (word_of z / 256 % 256)
        (word_of z / 65536 % 256)
        (word_of z / 16777216)
      ≡ z
unfolding i32_of_le_bytes
i32_of_le_bytes-le_bytes (pos n) h = ground arith
i32_of_le_bytes-le_bytes (negsuc n) h = ground arith

-- A header with a supported version is read back, whatever follows it: the checksum with its sign,
-- and the marker as it is classified.
pub read_header-le_bytes :
    (a b c d version : ℕ) (checksum : ℤ) (rest : Bytes)
    → 17 ≤ version
    → version ≤ 21
    → IsI32 checksum
    → read_header (a ∷ b ∷ c ∷ d ∷ le_bytes version (le_bytes (word_of checksum) rest))
      ≡ ok (record { ident = ident_of a b c d; version = pos version; checksum = checksum })
unfolding read_header
read_header-le_bytes a b c d version checksum rest lo hi h =
    rw (i32_of_le_bytes-le_bytes (pos version) (omega arith))
      (rw (i32_of_le_bytes-le_bytes checksum h) (ground arith))

-- What is accepted has twelve bytes and a version of the engine's range.
pub record Loadable (bytes : Bytes) (header : BspHeader) : Type 0 where
  pub enough : 12 ≤ length bytes
  pub version_number : ℕ
  pub version_is : header.version ≡ pos version_number
  pub at_least : 17 ≤ version_number
  pub at_most : version_number ≤ 21

supported-range : (v : ℤ) → supported v ≡ true → (n : ℕ) × (v ≡ pos n) × (17 ≤ n) × (n ≤ 21)
supported-range (pos n) h = (n, refl, ground arith, ground arith)
supported-range (negsuc n) h = cc

-- A header is accepted only if the engine would load the map.
pub read_header-Loadable :
    (bytes : Bytes) (header : BspHeader) → read_header bytes ≡ ok header → Loadable bytes header
unfolding read_header
read_header-Loadable (a ∷ b ∷ c ∷ d ∷ v0 ∷ v1 ∷ v2 ∷ v3 ∷ s0 ∷ s1 ∷ s2 ∷ s3 ∷ rest) header h =
    elim (Bool-cases (supported (i32_of_le_bytes v0 v1 v2 v3))) [
      | inl good ↦
          let (n, is, lo, hi) = supported-range (i32_of_le_bytes v0 v1 v2 v3) good in
          record {
            enough = omega arith;
            version_number = n;
            version_is = ground (arith, rw good at h, is);
            at_least = lo;
            at_most = hi;
          }
      | inr bad ↦ cc (rw bad at h)
    ]
read_header-Loadable _ header h = cc
