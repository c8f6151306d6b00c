-- ===== src/Bsp.antt =====
-- crates/reveille-core/src/bsp.rs: the twelve-byte header of a map file.
pub mod Header
use reveille.Prelude.{ℕ, ◌<◌, Bool, List, [], ◌∷◌, Result, ok, err, ltb, leb, ◌&&◌, if◌then◌else◌}
use reveille.Text.{Bytes, codes, text_eq}
use reveille.Text.Number.{ℤ, pos, negsuc, i32_of_le_bytes}

pub data Ident : Type 0 where
  allied_assault ea_expansion : Ident
  unknown : ℕ → ℕ → ℕ → ℕ → Ident

-- `Header`, with a checksum as the number in its newtype.
pub record BspHeader : Type 0 where
  pub ident : Ident
  pub version : ℤ
  pub checksum : ℤ

pub data BspError : Type 0 where
  read_failed : BspError
  unsupported_version : ℤ → BspError

abbrev pub min_version : ℕ
min_version = 17

abbrev pub max_version : ℕ
max_version = 21

-- `(MIN_VERSION..=MAX_VERSION).contains(&version)`
abbrev pub supported : ℤ → Bool
supported (pos version) = leb min_version version && leb version max_version
supported (negsuc n) = Bool.false

unfoldable pub ident_of : ℕ → ℕ → ℕ → ℕ → Ident
ident_of a b c d =
    if text_eq (a ∷ b ∷ c ∷ d ∷ []) (codes "2015")
    then allied_assault
    else if text_eq (a ∷ b ∷ c ∷ d ∷ []) (codes "EALA")
    then ea_expansion
    else unknown a b c d

-- The reader gives at least twelve bytes, or the read fails; what follows them is not read.
unfoldable pub read_header : Bytes → Result BspError BspHeader
unfolding ident_of
read_header (a ∷ b ∷ c ∷ d ∷ v0 ∷ v1 ∷ v2 ∷ v3 ∷ s0 ∷ s1 ∷ s2 ∷ s3 ∷ rest) =
    let version = i32_of_le_bytes v0 v1 v2 v3 in
    if supported version
    then ok (record {
      ident = ident_of a b c d;
      version = version;
      checksum = i32_of_le_bytes s0 s1 s2 s3;
    })
    else err (unsupported_version version)
read_header _ = err read_failed
