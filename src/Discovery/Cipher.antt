-- ===== src/Discovery/Cipher.antt =====
-- `gs_encrypt` of crates/reveille-core/src/discovery/protocol.rs: GameSpy's variant of RC4, in
-- which the plain byte steers the first index. A `u8` is a number below 256 and its wrapping
-- addition is written out.
pub mod Permutation
pub mod Prefixes
use Prim.Native.Nat.{bit_xor}
use reveille.Prelude.{
  ℕ, zero, suc, ◌+◌, ◌%◌, List, [], ◌∷◌, Result, ok, err, length, get_or, set, if◌then◌else◌,
}
use reveille.Text.{Bytes}

pub data CryptoError : Type 0 where
  empty_key : CryptoError

-- `a.wrapping_add(b)` on `u8`.
abbrev pub wrapping_add : ℕ → ℕ → ℕ
wrapping_add a b = (a + b) % 256

-- `state[i]`: every index of the cipher is below 256, the length of the state.
abbrev pub entry : Bytes → ℕ → ℕ
entry state i = get_or state i 0

-- `state.swap(i, j)`
unfoldable pub swap : Bytes → ℕ → ℕ → Bytes
swap state i j = set (set state i (entry state j)) j (entry state i)

-- The bytes from `n` on, one for each round.
unfoldable pub bytes_from : ℕ → ℕ → Bytes
bytes_from zero n = []
bytes_from (suc rounds) n = n ∷ bytes_from rounds (n + 1)

-- The `for counter in 0..256` loop, by the rounds left.
unfoldable pub schedule : ℕ → Bytes → ℕ → ℕ → ℕ → Bytes → Bytes
unfolding swap
schedule zero key counter key_index state_index state = state
schedule (suc rounds) key counter key_index state_index state =
    let next =
      wrapping_add (wrapping_add (entry key key_index) (entry state counter)) state_index in
    schedule rounds key (counter + 1) ((key_index + 1) % length key) next (swap state counter next)

-- What the loop over the output carries from byte to byte.
pub record Stream : Type 0 where
  pub x : ℕ
  pub y : ℕ
  pub state : Bytes

-- One byte of the output loop.
unfoldable pub stream_byte : Stream → ℕ → Stream × ℕ
unfolding swap
stream_byte s byte =
    let x = wrapping_add (wrapping_add s.x byte) 1 in
    let y = wrapping_add (entry s.state x) s.y in
    let state = swap s.state x y in
    let xor_index = wrapping_add (entry state x) (entry state y) in
    (record { x = x; y = y; state = state }, bit_xor byte (entry state xor_index))

-- The loop over the output: the stream after it, and the bytes written.
unfoldable pub encrypt_stream : Stream → Bytes → Stream × Bytes
encrypt_stream s [] = (s, [])
encrypt_stream s (byte ∷ input) =
    let (s', out) = stream_byte s byte in
    let (s'', rest) = encrypt_stream s' input in (s'', out ∷ rest)

unfoldable pub initial_stream : Bytes → Stream
unfolding schedule bytes_from
initial_stream key = record { x = 0; y = 0; state = schedule 256 key 0 0 0 (bytes_from 256 0) }

unfoldable pub gs_encrypt : Bytes → Bytes → Result CryptoError Bytes
unfolding initial_stream encrypt_stream stream_byte
gs_encrypt [] input = err empty_key
gs_encrypt (k ∷ key) input = ok (encrypt_stream (initial_stream (k ∷ key)) input).1
