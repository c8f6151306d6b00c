-- ===== src/Discovery/Probe/Outcome.antt =====
-- What one probe reports: the stages and reasons of crates/reveille-core/src/discovery/model.rs,
-- and the request errors of discovery/client.rs that become reasons.
use reveille.Prelude.{ℕ, Bool, ◌++◌, Option, none, some}
use reveille.Text.{Text, codes}
use reveille.Text.Number.{to_text}
use reveille.Discovery.Model.{MasterEndpoint}
use reveille.Discovery.Cipher.{CryptoError, empty_key}
use reveille.Discovery.Master.{
  ParseError, missing_challenge, invalid_challenge_length, missing_master_terminator,
  misaligned_master_body, zero_query_port, missing_field_value, invalid_oob_header,
  unexpected_oob_response, missing_server_info,
}
use reveille.Discovery.Server.{Server}

-- An error of the operating system is the text that it displays.
pub data RequestError : Type 0 where
  timeout : RequestError
  network : Text → RequestError
  parse : ParseError → RequestError
  crypto : CryptoError → RequestError
  empty_master_greeting : RequestError
  master_response_too_large : RequestError

pub data ProbeStage : Type 0 where
  gamespy_status host_port get_status endpoint_deduplication : ProbeStage

pub data NonResultReason : Type 0 where
  timed_out : NonResultReason
  network_failed : Text → NonResultReason
  malformed : Text → NonResultReason
  missing_host_port : NonResultReason
  duplicate_endpoint : ℕ → NonResultReason

pub record NonResult : Type 0 where
  pub stage : ProbeStage
  pub reason : NonResultReason

pub record ProbeOutcome : Type 0 where
  pub endpoint : MasterEndpoint
  pub gamespy_reachable : Bool
  pub server : Option Server
  pub non_result : Option NonResult

-- `Display` of the errors; `quoted` is `{:?}` of a text, which the core library writes.
module _ (quoted : Text → Text) where
  abbrev pub parse_error_text : ParseError → Text
  parse_error_text missing_challenge = codes "master greeting has no secure challenge"
  parse_error_text (invalid_challenge_length actual) =
      codes "master challenge has length " ++ (to_text actual ++ codes "; expected 6")
  parse_error_text missing_master_terminator = codes "master reply has no final marker"
  parse_error_text (misaligned_master_body size) =
      codes "master reply body has " ++ (to_text size ++ codes " bytes; expected a multiple of 6")
  parse_error_text zero_query_port = codes "master reply contains query port zero"
  parse_error_text (missing_field_value key) =
      codes "backslash field " ++ (quoted key ++ codes " has no value")
  parse_error_text invalid_oob_header = codes "reply does not use the MOHAA five-byte server header"
  parse_error_text (unexpected_oob_response expected actual) =
      codes "expected " ++ (expected ++ (codes " but received " ++ quoted actual))
  parse_error_text missing_server_info = codes "MOHAA reply has no serverinfo line"

  abbrev pub crypto_error_text : CryptoError → Text
  crypto_error_text empty_key = codes "GameSpy encryption key is empty"

  -- `NonResultReason::from`
  abbrev pub reason_of : RequestError → NonResultReason
  reason_of timeout = timed_out
  reason_of (network message) = network_failed message
  reason_of (parse e) = malformed (parse_error_text e)
  reason_of (crypto e) = malformed (crypto_error_text e)
  reason_of empty_master_greeting = malformed (codes "empty master greeting")
  reason_of master_response_too_large = malformed (codes "master response too large")

  -- `RequestError` displayed.
  abbrev pub request_error_text : RequestError → Text
  request_error_text timeout = codes "request timed out"
  request_error_text (network message) = codes "network request failed"
  request_error_text (parse e) = codes "malformed reply: " ++ parse_error_text e
  request_error_text (crypto e) =
      codes "could not encode master validation: " ++ crypto_error_text e
  request_error_text empty_master_greeting =
      codes "master closed the connection before its greeting"
  request_error_text master_response_too_large = codes "master response exceeded 4194304 bytes"

abbrev pub partial : MasterEndpoint → Bool → ProbeStage → NonResultReason → ProbeOutcome
partial endpoint reachable stage reason = record {
  endpoint = endpoint;
  gamespy_reachable = reachable;
  server = none;
  non_result = some (record { stage = stage; reason = reason });
}
