-- ===== src/Discovery/Cipher/Prefixes.antt =====
-- What `gs_encrypt` writes: as many bytes as it reads, each a byte, and for a longer input the
-- same bytes first.
use Prim.Native.Nat.{bit_xor}
use reveille.Prelude.{
  ℕ, zero, suc, ◌+◌, ◌≤◌, ◌<◌, ◌≡◌, refl, ap, true, [], ◌∷◌, ◌++◌, Result, ok, arith, ltb, length,
  set, ◌%◌, every_below, every_below_lem, ltb→lt,
}
use reveille.Text.{Bytes}
use reveille.Discovery.Encode.Decode.{AreBytes}
use reveille.Discovery.Cipher.{
  CryptoError, Stream, entry, swap, wrapping_add, bytes_from, schedule, stream_byte, encrypt_stream,
  initial_stream, gs_encrypt,
}

length-encrypt_stream :
    (input : Bytes) (s : Stream) → length (encrypt_stream s input).1 ≡ length input
unfolding encrypt_stream
length-encrypt_stream [] s = refl
length-encrypt_stream (b ∷ input) s = ap suc (length-encrypt_stream input (stream_byte s b).0)

encrypt_stream-append :
    (a b : Bytes) (s : Stream)
    → (encrypt_stream s (a ++ b)).1
      ≡ (encrypt_stream s a).1 ++ (encrypt_stream (encrypt_stream s a).0 b).1
unfolding encrypt_stream
encrypt_stream-append [] b s = refl
encrypt_stream-append (x ∷ a) b s =
    ap (◌∷◌ (stream_byte s x).1) (encrypt_stream-append a b (stream_byte s x).0)

-- The longer output continues the shorter one.
pub record Continues (shorter longer : Result CryptoError Bytes) (fewer more : ℕ) : Type 0 where
  pub first : Bytes
  pub rest : Bytes
  pub shorter_is : shorter ≡ ok first
  pub longer_is : longer ≡ ok (first ++ rest)
  pub first_length : length first ≡ fewer
  pub rest_length : length rest ≡ more

-- With a key that is not empty, encryption succeeds and writes a byte for each byte; what it
-- writes for `a` begins what it writes for `a ++ b`.
pub gs_encrypt-append :
    (k : ℕ) (key a b : Bytes)
    → Continues (gs_encrypt (k ∷ key) a) (gs_encrypt (k ∷ key) (a ++ b)) (length a) (length b)
unfolding gs_encrypt
gs_encrypt-append k key a b =
    let s = initial_stream (k ∷ key) in
    record {
      first = (encrypt_stream s a).1;
      rest = (encrypt_stream (encrypt_stream s a).0 b).1;
      shorter_is = refl;
      longer_is = ap ok (encrypt_stream-append a b s);
      first_length = length-encrypt_stream a s;
      rest_length = length-encrypt_stream b (encrypt_stream s a).0;
    }

-- A byte of the state, or 0 past its end.
entry-lt : (s : Bytes) (i : ℕ) → AreBytes s → entry s i < 256
entry-lt [] i h = omega arith
entry-lt (x ∷ s) zero h = h.0
entry-lt (x ∷ s) (suc i) h = entry-lt s i h.1

AreBytes-set : (s : Bytes) (i w : ℕ) → AreBytes s → w < 256 → AreBytes (set s i w)
AreBytes-set [] i w h k = tt
AreBytes-set (x ∷ s) zero w h k = (k, h.1)
AreBytes-set (x ∷ s) (suc i) w h k = (h.0, AreBytes-set s i w h.1 k)

swap-AreBytes : (s : Bytes) (i j : ℕ) → AreBytes s → AreBytes (swap s i j)
unfolding swap
swap-AreBytes s i j h =
    AreBytes-set (set s i (entry s j)) j (entry s i)
      (AreBytes-set s i (entry s j) h (entry-lt s j h)) (entry-lt s i h)

xor_table : every_below 256 (λ a. every_below 256 (λ b. ltb (bit_xor a b) 256)) ≡ true
unfolding every_below
xor_table = refl

bit_xor-lt : (a b : ℕ) → a < 256 → b < 256 → bit_xor a b < 256
bit_xor-lt a b ha hb =
    ltb→lt _ _ (every_below_lem 256 _ b (every_below_lem 256 _ a xor_table ha) hb)

bytes_from-AreBytes : (r n : ℕ) → r + n ≤ 256 → AreBytes (bytes_from r n)
unfolding bytes_from
bytes_from-AreBytes zero n h = tt
bytes_from-AreBytes (suc r) n h = (omega arith, bytes_from-AreBytes r (n + 1) (omega arith))

schedule-AreBytes :
    (r : ℕ) (key : Bytes) (c ki si : ℕ) (s : Bytes)
    → AreBytes s
    → AreBytes (schedule r key c ki si s)
unfolding schedule
schedule-AreBytes zero key c ki si s h = h
schedule-AreBytes (suc r) key c ki si s h =
    let next = wrapping_add (wrapping_add (entry key ki) (entry s c)) si in
    schedule-AreBytes r key (c + 1) ((ki + 1) % length key) next (swap s c next)
      (swap-AreBytes s c next h)

stream_byte-AreBytes :
    (s : Stream) (b : ℕ)
    → AreBytes s.state
    → b < 256
    → AreBytes (stream_byte s b).0.state × ((stream_byte s b).1 < 256)
unfolding stream_byte
stream_byte-AreBytes s b h hb =
    let x = wrapping_add (wrapping_add s.x b) 1 in
    let y = wrapping_add (entry s.state x) s.y in
    let swapped = swap-AreBytes s.state x y h in
    (swapped, bit_xor-lt b _ hb (entry-lt (swap s.state x y) _ swapped))

encrypt_stream-AreBytes :
    (input : Bytes) (s : Stream)
    → AreBytes s.state
    → AreBytes input
    → AreBytes (encrypt_stream s input).1
unfolding encrypt_stream
encrypt_stream-AreBytes [] s h hi = tt
encrypt_stream-AreBytes (b ∷ input) s h hi =
    let (kept, out) = stream_byte-AreBytes s b h hi.0 in
    (out, encrypt_stream-AreBytes input (stream_byte s b).0 kept hi.1)

initial_AreBytes : (key : Bytes) → AreBytes (initial_stream key).state
unfolding initial_stream
initial_AreBytes key =
    schedule-AreBytes 256 key 0 0 0 (bytes_from 256 0) (bytes_from-AreBytes 256 0 (omega arith))

-- From bytes the cipher makes bytes.
pub gs_encrypt-AreBytes :
    (k : ℕ) (key input : Bytes)
    → AreBytes input
    → (out : Bytes) × (gs_encrypt (k ∷ key) input ≡ ok out) × AreBytes out
unfolding gs_encrypt
gs_encrypt-AreBytes k key input h =
    let s = initial_stream (k ∷ key) in
    (
      (encrypt_stream s input).1,
      refl,
      encrypt_stream-AreBytes input s (initial_AreBytes (k ∷ key)) h,
    )
