-- ===== src/Discovery/Encode.antt =====
-- `gs_encode` of crates/reveille-core/src/discovery/protocol.rs: base64 whose last group is padded
-- with zero bits and has no `=`. The shifts are of `u8`, so they drop what passes bit 7.
pub mod Decode
use Prim.Native.Nat.{bit_and, bit_or}
use reveille.Prelude.{ℕ, ◌*◌, ◌/◌, ◌%◌, ◌^◌, List, [], ◌∷◌, ◌++◌, get_or, map}
use reveille.Text.{Text, Bytes, codes}

abbrev pub base64_alphabet : Bytes
base64_alphabet = codes "ABCDEFGHIJKLMNOPQRSTUVWXYZabcdefghijklmnopqrstuvwxyz0123456789+/"

-- `x >> k` and `x << k` on `u8`.
abbrev pub shr : ℕ → ℕ → ℕ
shr x k = x / 2 ^ k

abbrev pub shl : ℕ → ℕ → ℕ
shl x k = x * 2 ^ k % 256

-- The four indices of a chunk of three bytes.
unfoldable pub indices : ℕ → ℕ → ℕ → List ℕ
indices first second third =
    shr first 2
    ∷ bit_or (shl (bit_and first 0x03) 4) (shr second 4)
    ∷ bit_or (shl (bit_and second 0x0f) 2) (shr third 6)
    ∷ bit_and third 0x3f
    ∷ []

-- `BASE64_ALPHABET[index]`
abbrev pub letter : ℕ → ℕ
letter index = get_or base64_alphabet index 0

-- A byte that the last chunk lacks is read as 0.
unfoldable pub gs_encode : Bytes → Text
unfolding indices
gs_encode [] = []
gs_encode (a ∷ []) = map letter (indices a 0 0)
gs_encode (a ∷ b ∷ []) = map letter (indices a b 0)
gs_encode (a ∷ b ∷ c ∷ rest) = map letter (indices a b c) ++ gs_encode rest
