-- ===== src/Discovery/Probe.antt =====
-- One probe of crates/reveille-core/src/discovery/client.rs: a GameSpy status request, the game
-- port that it names, and a `getstatus` request to that port. The sockets are a parameter: what
-- each call on one answers. An I/O error is the text that it displays.
pub mod Outcome
pub mod Build
pub mod Complete
pub mod Players
use reveille.Prelude.{
  ℕ, zero, suc, Bool, true, false, List, [], ◌∷◌, ◌++◌, Option, none, some, if◌then◌else◌, Result,
  ok, err, ◌>>=◌, take, leb, opt_filter, not,
}
use reveille.Text.{Text, Bytes, codes, is_empty}
use reveille.Text.Number.{parse_unsigned, u16_max, u32_max}
use reveille.TreeMap.{lookup}
use reveille.Discovery.Model.{MasterEndpoint}
use reveille.Discovery.Fields.{FieldMap, parse_gamespy_status}
use reveille.Discovery.Master.{ParseError}
use reveille.Discovery.Status.{
  StatusResponse, oob_send_header, parse_oob_getstatus, parse_oob_getinfo,
}
use reveille.Discovery.Probe.Outcome.{
  RequestError, timeout, network, parse, NonResultReason, missing_host_port, malformed,
  ProbeOutcome, gamespy_status, host_port, get_status, reason_of, partial,
}
use reveille.Discovery.Probe.Build.{build_server}

-- A call under a deadline: it passes, the call fails, or the call returns.
pub data Timed (A : Type 0) : Type 0 where
  elapsed : Timed A
  failed : Text → Timed A
  returned : A → Timed A

abbrev pub timed : {A : Type 0} → Timed A → Result RequestError A
timed elapsed = err timeout
timed (failed message) = err (network message)
timed (returned value) = ok value

-- A call without a deadline.
abbrev pub untimed : Option Text → Result RequestError Unit
untimed none = ok tt
untimed (some message) = err (network message)

-- What the calls on one socket answer: the error of `bind` and of `connect`, and under a deadline
-- `send` and `recv`, which returns the datagram and the milliseconds since the send.
pub record Socket : Type 0 where
  pub bind : Option Text
  pub connect : Option Text
  pub send : Timed Unit
  pub recv : Timed (Bytes × ℕ)

abbrev pub max_udp_packet : ℕ
max_udp_packet = 65_535

-- `u32::try_from(elapsed.as_millis()).unwrap_or(u32::MAX)`
unfoldable pub round_trip_millis : ℕ → ℕ
round_trip_millis millis = if leb millis u32_max then millis else u32_max

-- A datagram longer than the buffer is cut.
unfoldable pub udp_request : Socket → Result RequestError (Bytes × ℕ)
unfolding round_trip_millis
udp_request socket = do
  bound ← untimed socket.bind
  connected ← untimed socket.connect
  sent ← timed socket.send
  received ← timed socket.recv
  ok (take max_udp_packet received.0, round_trip_millis received.1)

abbrev pub parsed : {A : Type 0} → Result ParseError A → Result RequestError A
parsed (ok value) = ok value
parsed (err e) = err (parse e)

-- The socket that a request of these bytes to an address and port meets.
abbrev pub Network : Type 0
Network = MasterEndpoint → ℕ → Bytes → Socket

abbrev pub gamespy_status_request : Bytes
gamespy_status_request = codes "\\status\\"

abbrev pub getstatus_request : Bytes
getstatus_request = oob_send_header ++ codes "getstatus"

abbrev pub getinfo_request : Text → Bytes
getinfo_request challenge = oob_send_header ++ (codes "getinfo " ++ challenge)

module _ (net : Network) where
  unfoldable pub query_gamespy_status : MasterEndpoint → Result RequestError FieldMap
  unfolding udp_request
  query_gamespy_status endpoint = do
    reply ← udp_request (net endpoint endpoint.query_port gamespy_status_request)
    parsed (parse_gamespy_status reply.0)

  unfoldable pub query_getstatus_measured :
      MasterEndpoint → ℕ → Result RequestError (StatusResponse × ℕ)
  unfolding udp_request
  query_getstatus_measured endpoint game_port = do
    reply ← udp_request (net endpoint game_port getstatus_request)
    status ← parsed (parse_oob_getstatus reply.0)
    ok (status, reply.1)

  unfoldable pub query_getstatus : MasterEndpoint → ℕ → Result RequestError FieldMap
  unfolding query_getstatus_measured
  query_getstatus endpoint game_port = do
    measured ← query_getstatus_measured endpoint game_port
    ok measured.0.info

  unfoldable pub query_getinfo : MasterEndpoint → ℕ → Text → Result RequestError FieldMap
  unfolding udp_request
  query_getinfo endpoint game_port challenge = do
    reply ← udp_request (net endpoint game_port (getinfo_request challenge))
    parsed (parse_oob_getinfo reply.0)

module _ (quoted : Text → Text) where
  abbrev pub invalid_port : Text → NonResultReason
  invalid_port value = malformed (codes "invalid hostport " ++ quoted value)

  abbrev pub port_of_parse : Text → Option ℕ → Result NonResultReason ℕ
  port_of_parse value none = err (invalid_port value)
  port_of_parse value (some zero) = err (invalid_port value)
  port_of_parse value (some (suc port)) = ok (suc port)

  abbrev pub port_of_field : Option Text → Result NonResultReason ℕ
  port_of_field none = err missing_host_port
  port_of_field (some value) = port_of_parse value (parse_unsigned u16_max value)

  unfoldable pub game_port_from_gamespy : FieldMap → Result NonResultReason ℕ
  game_port_from_gamespy fields =
      port_of_field (opt_filter (λ value. not (is_empty value)) (lookup (codes "hostport") fields))

  module _ (net : Network) where
    abbrev pub status_stage :
        MasterEndpoint → FieldMap → ℕ → Result RequestError (StatusResponse × ℕ) → ProbeOutcome
    status_stage endpoint gamespy port (err e) =
        partial endpoint true get_status (reason_of quoted e)
    status_stage endpoint gamespy port (ok (status, round_trip)) = record {
      endpoint = endpoint;
      gamespy_reachable = true;
      server = some (build_server endpoint port gamespy status.info status.players round_trip);
      non_result = none;
    }

    abbrev pub port_stage : MasterEndpoint → FieldMap → Result NonResultReason ℕ → ProbeOutcome
    port_stage endpoint gamespy (err reason) = partial endpoint true host_port reason
    port_stage endpoint gamespy (ok port) =
        status_stage endpoint gamespy port (query_getstatus_measured net endpoint port)

    abbrev pub gamespy_stage : MasterEndpoint → Result RequestError FieldMap → ProbeOutcome
    gamespy_stage endpoint (err e) = partial endpoint false gamespy_status (reason_of quoted e)
    gamespy_stage endpoint (ok gamespy) =
        port_stage endpoint gamespy (game_port_from_gamespy gamespy)

    unfoldable pub probe_server : MasterEndpoint → ProbeOutcome
    unfolding query_gamespy_status query_getstatus_measured game_port_from_gamespy
    probe_server endpoint = gamespy_stage endpoint (query_gamespy_status net endpoint)
