-- ===== src/Discovery/Master.antt =====
-- The GameSpy master of crates/reveille-core/src/discovery/protocol.rs: its challenge, the query
-- that answers it, and the packed list of servers.
pub mod RoundTrip
use reveille.Prelude.{
  ℕ, ◌+◌, ◌*◌, ◌%◌, Bool, not, List, [], ◌∷◌, ◌++◌, Option, none, some, Result, ok, err, ok_or,
  ◌>>=◌, ◌==◌, if◌then◌else◌, length, take, drop,
}
use reveille.Text.{Text, Bytes, codes, find_sub}
use reveille.Discovery.Model.{MasterEndpoint}

-- The `ParseError` of protocol.rs.
pub data ParseError : Type 0 where
  missing_challenge : ParseError
  invalid_challenge_length : ℕ → ParseError
  missing_master_terminator : ParseError
  misaligned_master_body : ℕ → ParseError
  zero_query_port : ParseError
  missing_field_value : Text → ParseError
  invalid_oob_header : ParseError
  unexpected_oob_response : Text → Text → ParseError
  missing_server_info : ParseError

abbrev pub master_terminator : Bytes
master_terminator = codes "\\final\\"

abbrev pub secure_marker : Bytes
secure_marker = codes "\\secure\\"

-- `position(|byte| *byte == b'\\').unwrap_or(remaining.len())`
unfoldable pub field_end : Bytes → ℕ
field_end [] = 0
field_end (b ∷ rest) = if b == b'\\' then 0 else 1 + field_end rest

unfoldable pub parse_master_challenge : Bytes → Result ParseError Bytes
unfolding field_end
parse_master_challenge greeting = do
  position ← ok_or (find_sub secure_marker greeting) missing_challenge
  let remaining = drop (position + length secure_marker) greeting
  if field_end remaining == 6
      then ok (take (field_end remaining) remaining)
      else err (invalid_challenge_length (field_end remaining))

-- `u16::from_be_bytes`
abbrev pub port_of : ℕ → ℕ → ℕ
port_of high low = high * 256 + low

-- The records of the body in order, up to the first whose port is 0. What is shorter than a record
-- is left over.
unfoldable pub master_records : Bytes → Result ParseError (List MasterEndpoint)
master_records (a ∷ b ∷ c ∷ d ∷ high ∷ low ∷ rest) =
    let port = port_of high low in
    let later = (do
      es ← master_records rest
      ok (record { a = a; b = b; c = c; d = d; query_port = port } ∷ es)) in
    if port == 0 then err zero_query_port else later
master_records _ = ok []

unfoldable pub parse_master_response : Bytes → Result ParseError (List MasterEndpoint)
unfolding master_records
parse_master_response response = do
  end ← ok_or (find_sub master_terminator response) missing_master_terminator
  let body = take end response
  if length body % 6 == 0 then master_records body else err (misaligned_master_body (length body))
