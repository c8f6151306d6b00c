-- ===== src/Discovery/Cipher/Permutation.antt =====
-- The cipher's state holds every byte value once, after the key schedule and after each byte.
use reveille.Prelude.{
  ℕ, zero, suc, ◌+◌, ◌%◌, ◌≤◌, ◌<◌, ◌≡◌, refl, ap, ◌∙◌, [], ◌∷◌, arith, ◌==◌, length, set,
  if◌then◌else◌, length-set,
}
use reveille.Text.{Bytes}
use reveille.Discovery.Cipher.{
  Stream, entry, wrapping_add, swap, bytes_from, schedule, stream_byte, encrypt_stream,
  initial_stream,
}

-- How often a value stands in a state.
abbrev pub count : ℕ → Bytes → ℕ
count v [] = 0
count v (x ∷ s) = (if x == v then 1 else 0) + count v s

-- A state is an arrangement of the 256 byte values.
pub record IsPermutation (state : Bytes) : Type 0 where
  pub full : length state ≡ 256
  pub once : (v : ℕ) → v < 256 → count v state ≡ 1

count-set :
    (v w i : ℕ) (s : Bytes)
    → i < length s
    → count v (set s i w) + (if entry s i == v then 1 else 0)
      ≡ count v s + (if w == v then 1 else 0)
count-set v w i [] h = elim h [ ]
count-set v w zero (x ∷ s) h = omega arith
count-set v w (suc i) (x ∷ s) h = omega (arith, count-set v w i s (omega arith))

entry-set :
    (s : Bytes) (i j w : ℕ) → j < length s → entry (set s i w) j ≡ (if i == j then w else entry s j)
entry-set [] i j w h = elim h [ ]
entry-set (x ∷ s) zero zero w h = refl
entry-set (x ∷ s) zero (suc j) w h = ground arith
entry-set (x ∷ s) (suc i) zero w h = ground arith
entry-set (x ∷ s) (suc i) (suc j) w h = ground (arith, entry-set s i j w (omega arith))

count-swap :
    (v i j : ℕ) (s : Bytes) → i < length s → j < length s → count v (swap s i j) ≡ count v s
unfolding swap
count-swap v i j s hi hj = ground (
  arith,
  count-set v (entry s j) i s hi,
  count-set v (entry s i) j (set s i (entry s j)) (omega (arith, length-set s i (entry s j))),
  entry-set s i j (entry s j) hj,
)

pub swap-IsPermutation :
    (s : Bytes) (i j : ℕ) → IsPermutation s → i < 256 → j < 256 → IsPermutation (swap s i j)
swap-IsPermutation s i j p hi hj = record {
  full =
      unfold swap in
      length-set (set s i (entry s j)) j (entry s i) ∙ length-set s i (entry s j) ∙ p.full;
  once = λ v hv. count-swap v i j s (omega (arith, p.full)) (omega (arith, p.full)) ∙ p.once v hv;
}

length-bytes_from : (r n : ℕ) → length (bytes_from r n) ≡ r
unfolding bytes_from
length-bytes_from zero n = refl
length-bytes_from (suc r) n = ap suc (length-bytes_from r (n + 1))

count-bytes_from_outside : (v r n : ℕ) → v < n → count v (bytes_from r n) ≡ 0
unfolding bytes_from
count-bytes_from_outside v zero n h = refl
count-bytes_from_outside v (suc r) n h = ground (arith, count-bytes_from_outside v r (n + 1))

count-bytes_from : (v r n : ℕ) → n ≤ v → v < n + r → count v (bytes_from r n) ≡ 1
unfolding bytes_from
count-bytes_from v zero n h k = absurd (omega arith)
count-bytes_from v (suc r) n h k =
    ground (arith, count-bytes_from_outside v r (n + 1), count-bytes_from v r (n + 1))

bytes_from-IsPermutation : IsPermutation (bytes_from 256 0)
bytes_from-IsPermutation = record {
  full = length-bytes_from 256 0;
  once = λ v h. count-bytes_from v 256 0 (omega arith) (omega arith);
}

schedule-IsPermutation :
    (r : ℕ) (key : Bytes) (c ki si : ℕ) (s : Bytes)
    → IsPermutation s
    → c + r ≤ 256
    → IsPermutation (schedule r key c ki si s)
unfolding schedule
schedule-IsPermutation zero key c ki si s p h = p
schedule-IsPermutation (suc r) key c ki si s p h =
    let next = wrapping_add (wrapping_add (entry key ki) (entry s c)) si in
    schedule-IsPermutation r key (c + 1) ((ki + 1) % length key) next (swap s c next)
      (swap-IsPermutation s c next p (omega arith) (omega arith)) (omega arith)

-- The key schedule ends in an arrangement of the 256 byte values, whatever the key.
initial_stream-IsPermutation : (key : Bytes) → IsPermutation (initial_stream key).state
unfolding initial_stream
initial_stream-IsPermutation key =
    schedule-IsPermutation 256 key 0 0 0 (bytes_from 256 0) bytes_from-IsPermutation (omega arith)

stream_byte-IsPermutation :
    (s : Stream) (b : ℕ) → IsPermutation s.state → IsPermutation (stream_byte s b).0.state
unfolding stream_byte
stream_byte-IsPermutation s b p =
    let x = wrapping_add (wrapping_add s.x b) 1 in
    swap-IsPermutation s.state x (wrapping_add (entry s.state x) s.y) p (omega arith) (omega arith)

encrypt_stream-IsPermutation :
    (input : Bytes) (s : Stream)
    → IsPermutation s.state
    → IsPermutation (encrypt_stream s input).0.state
unfolding encrypt_stream
encrypt_stream-IsPermutation [] s p = p
encrypt_stream-IsPermutation (b ∷ input) s p =
    encrypt_stream-IsPermutation input (stream_byte s b).0 (stream_byte-IsPermutation s b p)

-- After the key schedule and any input, the state of the cipher holds each of the 256 byte values
-- exactly once.
pub cipher_state-IsPermutation :
    (key input : Bytes) → IsPermutation (encrypt_stream (initial_stream key) input).0.state
cipher_state-IsPermutation key input =
    encrypt_stream-IsPermutation input (initial_stream key) (initial_stream-IsPermutation key)
