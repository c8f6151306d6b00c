-- ===== src/Tests/Discovery.antt =====
-- Runs of the code of discovery, and its theorems at concrete inputs.
use reveille.Prelude.{◌≡◌, refl, List, [], ◌∷◌, ◌++◌, arith, ok}
use reveille.Text.{Text, Bytes, codes, starts_with, strip_prefix, find_sub}
use reveille.Discovery.Model.{MasterEndpoint, spearhead}
use reveille.Discovery.Cipher.{encrypt_stream, initial_stream}
use reveille.Discovery.Cipher.Permutation.{IsPermutation, cipher_state-IsPermutation}
use reveille.Discovery.Encode.{gs_encode}
use reveille.Discovery.Encode.Decode.{AreBytes, decode, padded, decode-gs_encode}
use reveille.Discovery.Master.{master_terminator, parse_master_response}
use reveille.Discovery.Master.RoundTrip.{pack, parse_master_response-pack}
use reveille.Discovery.Fields.{FieldMap}
use reveille.Discovery.Fields.Query.{Answers, build_master_query-Answers}

abbrev challenge : Bytes
challenge = codes "ABCDEF"

challenge-AreBytes : AreBytes challenge
challenge-AreBytes = ground arith

abbrev key : Bytes
key = codes "h2P1c9"

cipher_state-IsPermutation_example :
    IsPermutation (encrypt_stream (initial_stream key) challenge).0.state
cipher_state-IsPermutation_example = cipher_state-IsPermutation key challenge

decode-gs_encode_example : decode (gs_encode challenge) ≡ padded challenge
decode-gs_encode_example = decode-gs_encode challenge challenge-AreBytes

-- A known encoding.
gs_encode_test : gs_encode (codes "foobar") ≡ codes "Zm9vYmFy"
unfolding gs_encode
gs_encode_test = refl

abbrev endpoint : MasterEndpoint
endpoint = record { a = 192; b = 0; c = 2; d = 17; query_port = 12300 }

abbrev endpoints : List MasterEndpoint
endpoints = endpoint ∷ []

parse_master_response-pack_example :
    parse_master_response (pack endpoints ++ (master_terminator ++ codes "rest")) ≡ ok endpoints
unfolding find_sub starts_with strip_prefix
parse_master_response-pack_example =
    parse_master_response-pack endpoints (codes "rest") (λ h. omega (arith, h), tt) refl

abbrev reply : Bytes
reply = pack endpoints ++ (master_terminator ++ codes "rest")

abbrev sample_fields : List (Text × Text)
sample_fields =
    (codes "hostname", codes "first")
    ∷ (codes "mapname", [])
    ∷ (codes "hostname", codes "last")
    ∷ []

build_master_query-Answers_example : Answers spearhead challenge
build_master_query-Answers_example =
    build_master_query-Answers spearhead challenge challenge-AreBytes

abbrev status_reply : Bytes
status_reply =
    255 ∷ 255 ∷ 255 ∷ 255 ∷ 1 ∷ codes "statusResponse\n\\sv_hostname\\x\n0 50 \"a\u{1}b\"\n"

abbrev player_fields : FieldMap
player_fields = (codes "ping_0", codes "50") ∷ (codes "player_0", codes "a b") ∷ []
