-- ===== src/Content/PakRadar.antt =====
-- crates/reveille-core/src/content/pakradar.rs: the packages that a server publishes, with their
-- MD5 digests. The HTTP client, the disk, MD5 and the reader of URLs are parameters.
pub mod Manifest
pub mod Package
pub mod Digest
pub mod Written
pub mod Verified
pub mod Effective
use reveille.Prelude.{
  ℕ, ◌+◌, ◌*◌, ◌-◌, ◌/◌, ◌%◌, Bool, true, false, ◌||◌, List, [], ◌∷◌, ◌++◌, Option, none, some,
  if◌then◌else◌, ◌==◌, within, Result, ok, err, ok_or, get_or, and_then, opt_map,
}
use reveille.Text.{Text, Bytes, codes, byte_len, trim, text_eq}
use reveille.Retry.{transient_status}
use reveille.Content.Archive.{ArchiveError}

-- An error of the HTTP client or of the disk is the text that it displays; `is_builder` tells
-- whether the request could not be built.
pub data PakRadarError : Type 0 where
  syntax : ℕ → PakRadarError
  unclosed_block : PakRadarError
  missing_field : Text → ℕ → PakRadarError
  invalid_md5 : Text → PakRadarError
  unsafe_url : Text → PakRadarError
  request_failed : (is_builder : Bool) (message : Text) → PakRadarError
  http_status : ℕ → PakRadarError
  download_too_large : PakRadarError
  digest_mismatch : (expected actual : Bytes) → PakRadarError
  bad_name : ArchiveError → PakRadarError
  staging_failed : Text → PakRadarError
  local_package : Text → PakRadarError

-- `PakRadarError::is_transient`
unfoldable pub is_transient : PakRadarError → Bool
is_transient (request_failed true message) = false
is_transient (request_failed false message) = true
is_transient (http_status code) = transient_status code
is_transient _ = false

-- `hex_digit`
unfoldable pub hex_digit : ℕ → Option ℕ
hex_digit byte =
    if within b'0' b'9' byte
    then some (byte - b'0')
    else if within b'a' b'f' byte
    then some (byte - b'a' + 10)
    else if within b'A' b'F' byte
    then some (byte - b'A' + 10)
    else none

-- The bytes of pairs of digits: none at the first character that is not one.
unfoldable pub hex_pairs : Text → Option Bytes
unfolding hex_digit
hex_pairs [] = some []
hex_pairs (c ∷ []) = none
hex_pairs (high ∷ low ∷ rest) =
    let later = hex_pairs rest in
    and_then (hex_digit high)
      (λ h. and_then (hex_digit low) (λ l. opt_map (λ bytes. (h * 16 + l) ∷ bytes) later))

-- `Md5Digest::parse`: the length is that of the UTF-8 bytes.
unfoldable pub parse_md5 : Text → Result PakRadarError Bytes
unfolding hex_pairs
parse_md5 text =
    let value = trim text in
    if byte_len value == 32
    then ok_or (hex_pairs value) (invalid_md5 value)
    else err (invalid_md5 value)

abbrev pub lower_digit : ℕ → ℕ
lower_digit n = get_or (codes "0123456789abcdef") n 0

-- `Display` of a digest.
unfoldable pub show_md5 : Bytes → Text
show_md5 [] = []
show_md5 (b ∷ bytes) = lower_digit (b / 16) ∷ lower_digit (b % 16) ∷ show_md5 bytes

pub record PakRadarEntry : Type 0 where
  pub alias : Text
  pub md5 : Bytes
  pub url : Text
