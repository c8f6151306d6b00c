-- ===== src/Discovery/Sweep/Fetch.antt =====
-- `fetch_master_retrying` of crates/reveille-core/src/discovery/client.rs: the list of endpoints
-- from the GameSpy master. The stream of an attempt is a parameter: what its calls answer.
use reveille.Prelude.{
  ℕ, zero, suc, ◌+◌, ◌*◌, ◌≤◌, ◌<◌, ◌≡◌, refl, Bool, true, false, List, [], ◌∷◌, ◌++◌, Option, none,
  some, ltb, length, length-append, if◌then◌else◌, Result, ok, err, ◌>>=◌, arith, inl, inr,
  Bool-cases,
}
use reveille.Text.{Text, Bytes, is_empty, contains}
use reveille.Retry.{run}
use reveille.Discovery.Model.{MasterEndpoint, TargetGame}
use reveille.Discovery.Cipher.{CryptoError}
use reveille.Discovery.Master.{parse_master_challenge, parse_master_response, master_terminator}
use reveille.Discovery.Fields.Query.{build_master_query}
use reveille.Discovery.Probe.Outcome.{
  RequestError, timeout, network, crypto, empty_master_greeting, master_response_too_large,
}
use reveille.Discovery.Probe.{Timed, timed, parsed}

-- One connection to the master: its connect, the answer of the first read, of the write of a
-- query, and of the read of a number behind it. A read that returns no byte is the end.
pub record Stream : Type 0 where
  pub connect : Timed Unit
  pub greeting : Timed Bytes
  pub write_all : Text → Timed Unit
  pub read : ℕ → Timed Bytes

-- 4 MiB
abbrev pub max_master_response : ℕ
max_master_response = 4 * 1024 * 1024

-- `response.windows(7).any(|window| window == b"\\final\\")`
abbrev pub is_terminated : Bytes → Bool
is_terminated response = contains master_terminator response

-- What follows one read: the end of the loop, or the rest of it.
abbrev pub after_read :
    Bytes
    → Result RequestError Bytes
    → Option (Result RequestError Bytes)
    → Option (Result RequestError Bytes)
after_read response (err e) rest = some (err e)
after_read response (ok []) rest = some (ok response)
after_read response (ok (b ∷ chunk)) rest =
    if ltb max_master_response (length (response ++ (b ∷ chunk)))
    then some (err master_response_too_large)
    else if is_terminated (response ++ (b ∷ chunk))
    then some (ok (response ++ (b ∷ chunk)))
    else rest

-- The chunk of an answer, for the round behind it.
abbrev pub chunk_of : Result RequestError Bytes → Bytes
chunk_of (err e) = []
chunk_of (ok chunk) = chunk

-- The loop over the reads, on fuel, from the number of a read.
unfoldable pub read_loop : Stream → ℕ → ℕ → Bytes → Option (Result RequestError Bytes)
read_loop stream zero number response = none
read_loop stream (suc fuel) number response =
    let answer = timed (stream.read number) in
    let rest = read_loop stream fuel (number + 1) (response ++ chunk_of answer) in
    after_read response answer rest

-- A read brings a byte at least, so the limit bounds the rounds.
unfoldable pub read_response : Stream → Option (Result RequestError Bytes)
unfolding read_loop
read_response stream = read_loop stream (max_master_response + 2) 0 []

abbrev pub query_of : Result CryptoError Text → Result RequestError Text
query_of (ok query) = ok query
query_of (err e) = err (crypto e)

-- The greeting's challenge, answered.
unfoldable pub greet : TargetGame → Stream → Result RequestError Text
greet target stream = do
  connected ← timed stream.connect
  greeting ← timed stream.greeting
  challenge ←
      if is_empty greeting
      then err empty_master_greeting
      else parsed (parse_master_challenge greeting)
  query_of (build_master_query target challenge)

abbrev pub parsed_response :
    Option (Result RequestError Bytes) → Option (Result RequestError (List MasterEndpoint))
parsed_response none = none
parsed_response (some (err e)) = some (err e)
parsed_response (some (ok response)) = some (parsed (parse_master_response response))

abbrev pub after_write :
    Stream → Result RequestError Unit → Option (Result RequestError (List MasterEndpoint))
after_write stream (err e) = some (err e)
after_write stream (ok sent) = parsed_response (read_response stream)

abbrev pub after_greet :
    Stream → Result RequestError Text → Option (Result RequestError (List MasterEndpoint))
after_greet stream (err e) = some (err e)
after_greet stream (ok query) = after_write stream (timed (stream.write_all query))

unfoldable pub fetch_master :
    TargetGame → Stream → Option (Result RequestError (List MasterEndpoint))
unfolding greet read_response
fetch_master target stream = after_greet stream (greet target stream)

-- Which failures of the master are worth another attempt.
abbrev pub is_momentary : RequestError → Bool
is_momentary (network message) = true
is_momentary empty_master_greeting = true
is_momentary _ = false

-- What the first reads of a stream have brought when the reading goes on: each brought a byte at
-- least, and after none was the response above the limit or terminated.
pub data Received (stream : Stream) : ℕ → Bytes → Type 0 where
  nothing : Received stream 0 []
  more :
      {n b : ℕ} {response chunk : Bytes}
      → Received stream n response
      → timed (stream.read n) ≡ ok (b ∷ chunk)
      → length (response ++ (b ∷ chunk)) ≤ max_master_response
      → is_terminated (response ++ (b ∷ chunk)) ≡ false
      → Received stream (n + 1) (response ++ (b ∷ chunk))

-- The read that ends the response, after those that brought its beginning.
pub data IsRead (stream : Stream) : Result RequestError Bytes → Type 0 where
  read_failed :
      {n : ℕ} {response : Bytes} {e : RequestError}
      → Received stream n response
      → timed (stream.read n) ≡ err e
      → IsRead stream (err e)
  too_large :
      {n : ℕ} {response chunk : Bytes}
      → Received stream n response
      → timed (stream.read n) ≡ ok chunk
      → max_master_response < length (response ++ chunk)
      → IsRead stream (err master_response_too_large)
  terminated :
      {n : ℕ} {response chunk : Bytes}
      → Received stream n response
      → timed (stream.read n) ≡ ok chunk
      → length (response ++ chunk) ≤ max_master_response
      → is_terminated (response ++ chunk) ≡ true
      → IsRead stream (ok (response ++ chunk))
  closed :
      {n : ℕ} {response : Bytes}
      → Received stream n response
      → timed (stream.read n) ≡ ok []
      → length response ≤ max_master_response
      → IsRead stream (ok response)

read_loop-IsRead :
    (stream : Stream) (fuel number : ℕ) (response : Bytes)
    → Received stream number response
    → length response ≤ max_master_response
    → max_master_response < fuel + length response
    → (r : Result RequestError Bytes) × (read_loop stream fuel number response ≡ some r)
      × IsRead stream r
unfolding read_loop
read_loop-IsRead stream zero number response before small enough =
    absurd (omega (arith, small, enough))
read_loop-IsRead stream (suc fuel) number response before small enough =
    by_answer (timed (stream.read number)) refl (read_loop-IsRead stream fuel (number + 1))
  where
    by_answer :
        (answer : Result RequestError Bytes)
        → timed (stream.read number) ≡ answer
        → ((next : Bytes)
            → Received stream (number + 1) next
            → length next ≤ max_master_response
            → max_master_response < fuel + length next
            → (r : Result RequestError Bytes) × (read_loop stream fuel (number + 1) next ≡ some r)
              × IsRead stream r)
        → (r : Result RequestError Bytes) × (read_loop stream (suc fuel) number response ≡ some r)
          × IsRead stream r
    by_answer (err e) h ih = (err e, rw h refl, read_failed before h)
    by_answer (ok []) h ih = (ok response, rw h refl, closed before h small)
    by_answer (ok (b ∷ chunk)) h ih =
        let next = response ++ (b ∷ chunk) in
        elim (Bool-cases (ltb max_master_response (length next))) [
          | inl big ↦
              (err master_response_too_large, rw (h, big) refl, too_large before h (ground arith))
          | inr fits ↦ elim (Bool-cases (is_terminated next)) [
            | inl end ↦ (ok next, rw (h, fits, end) refl, terminated before h (ground arith) end)
            | inr unended ↦
                let (r, e, read) =
                  ih next (more before h (ground arith) unended) (ground arith)
                    (omega (arith, enough, length-append response (b ∷ chunk))) in
                (r, rw (h, fits, unended) e, read)
          ]
        ]

-- Reading the master's response ends on every stream, with the fuel of one round for each byte
-- that the limit allows. It ends at the first read that fails, with that error; that brings the
-- response above the limit, with the error for it; that completes the marker within the limit; or
-- that brings nothing. A response is what the reads up to there brought, in their order.
pub read_response-IsRead :
    (stream : Stream)
    → (r : Result RequestError Bytes) × (read_response stream ≡ some r) × IsRead stream r
unfolding read_response
read_response-IsRead stream =
    read_loop-IsRead stream (max_master_response + 2) 0 [] nothing (omega arith) (omega arith)

-- The answer of an attempt. The fuel of the loop is enough, so none is no answer.
abbrev pub answered :
    Option (Result RequestError (List MasterEndpoint)) → Result RequestError (List MasterEndpoint)
answered none = err timeout
answered (some answer) = answer

-- `fetch_master_retrying`, on the stream that the attempt of a number opens, with the attempts
-- that were made.
unfoldable pub fetch_master_retrying :
    TargetGame → (ℕ → Stream) → List ℕ → Option (Result RequestError (List MasterEndpoint) × ℕ)
unfolding fetch_master
fetch_master_retrying target streams delays =
    run is_momentary (λ number. answered (fetch_master target (streams number))) delays

-- Fetching the list ends on every stream.
pub fetch_master-some :
    (target : TargetGame) (stream : Stream)
    → (answer : Result RequestError (List MasterEndpoint)) × (fetch_master target stream
        ≡ some answer)
unfolding fetch_master
fetch_master-some target stream = by_greet (greet target stream)
  where
    by_read :
        (r : Result RequestError Bytes)
        → read_response stream ≡ some r
        → (answer : Result RequestError (List MasterEndpoint)) × (parsed_response
              (read_response stream)
            ≡ some answer)
    by_read (err e) h = (err e, rw h refl)
    by_read (ok response) h = (parsed (parse_master_response response), rw h refl)

    by_write :
        (r : Result RequestError Unit)
        → (answer : Result RequestError (List MasterEndpoint)) × (after_write stream r
            ≡ some answer)
    by_write (err e) = (err e, refl)
    by_write (ok sent) = let (r, h, read) = read_response-IsRead stream in by_read r h

    by_greet :
        (r : Result RequestError Text)
        → (answer : Result RequestError (List MasterEndpoint)) × (after_greet stream r
            ≡ some answer)
    by_greet (err e) = (err e, refl)
    by_greet (ok query) = by_write (timed (stream.write_all query))
