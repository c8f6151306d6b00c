-- ===== src/Discovery/Probe/Complete.antt =====
-- Every probe ends in a complete server or in a recorded reason.
use reveille.Prelude.{
  ℕ, zero, suc, ◌≤◌, ◌<◌, ◌≡◌, refl, Bool, true, false, not, Option, none, some, Result, ok, err,
  OnOk, OnOk-bind, Result-cases, inl, inr, subst, arith, OnSome, opt_filter,
}
use reveille.Text.{Text, Bytes, codes, is_some, is_empty}
use reveille.Text.Number.{parse_unsigned, parse_unsigned-bounded, u16_max, u32_max}
use reveille.TreeMap.{lookup}
use reveille.Discovery.Model.{MasterEndpoint}
use reveille.Discovery.Fields.{FieldMap}
use reveille.Discovery.Server.{Server}
use reveille.Discovery.Status.{StatusResponse, parse_oob_getstatus}
use reveille.Discovery.Probe.Outcome.{
  RequestError, NonResultReason, ProbeOutcome, ProbeStage, gamespy_status, host_port, get_status,
  reason_of,
}
use reveille.Discovery.Probe.Build.{build_server}
use reveille.Discovery.Probe.{
  Socket, Network, round_trip_millis, udp_request, untimed, timed, query_gamespy_status,
  query_getstatus_measured, port_of_parse, port_of_field, game_port_from_gamespy, status_stage,
  port_stage, gamespy_stage, probe_server, parsed, getstatus_request,
}

-- A complete server is the endpoint's own, with a game port and a measured round trip in range.
pub record IsMeasured (endpoint : MasterEndpoint) (server : Server) : Type 0 where
  pub registered : server.endpoint ≡ endpoint
  pub port_positive : 0 < server.game_port
  pub port_bounded : server.game_port ≤ u16_max
  pub round_trip_bounded : server.status_round_trip ≤ u32_max

-- A stage behind the first is reached only by a GameSpy reply that was understood.
abbrev pub heard : ProbeStage → Bool
heard gamespy_status = false
heard _ = true

-- The first of the three steps that failed, with what it failed with, or none of them.
pub data Ended (quoted : Text → Text) (net : Network) (endpoint : MasterEndpoint)
    : ProbeOutcome → Type 0 where
  unheard :
      {o : ProbeOutcome} {e : RequestError}
      → query_gamespy_status net endpoint ≡ err e
      → o.non_result ≡ some (record { stage = gamespy_status; reason = reason_of quoted e })
      → Ended quoted net endpoint o
  no_port :
      {o : ProbeOutcome} {fields : FieldMap} {reason : NonResultReason}
      → query_gamespy_status net endpoint ≡ ok fields
      → game_port_from_gamespy quoted fields ≡ err reason
      → o.non_result ≡ some (record { stage = host_port; reason = reason })
      → Ended quoted net endpoint o
  no_status :
      {o : ProbeOutcome} {fields : FieldMap} {port : ℕ} {e : RequestError}
      → query_gamespy_status net endpoint ≡ ok fields
      → game_port_from_gamespy quoted fields ≡ ok port
      → query_getstatus_measured net endpoint port ≡ err e
      → o.non_result ≡ some (record { stage = get_status; reason = reason_of quoted e })
      → Ended quoted net endpoint o
  complete :
      {o : ProbeOutcome} {fields : FieldMap} {status : StatusResponse} {port round_trip : ℕ}
      → query_gamespy_status net endpoint ≡ ok fields
      → game_port_from_gamespy quoted fields ≡ ok port
      → query_getstatus_measured net endpoint port ≡ ok (status, round_trip)
      → o.server ≡ some (build_server endpoint port fields status.info status.players round_trip)
      → o.gamespy_reachable ≡ true
      → Ended quoted net endpoint o

-- The reason stands exactly where the server is missing.
pub record Describes (quoted : Text → Text) (net : Network) (endpoint : MasterEndpoint)
    (outcome : ProbeOutcome) : Type 0 where
  pub same : outcome.endpoint ≡ endpoint
  pub either : is_some outcome.server ≡ not (is_some outcome.non_result)
  pub measured : OnSome (IsMeasured endpoint) outcome.server
  pub stages : OnSome (λ n. outcome.gamespy_reachable ≡ heard n.stage) outcome.non_result
  pub ending : Ended quoted net endpoint outcome

round_trip_millis_bounded : (millis : ℕ) → round_trip_millis millis ≤ u32_max
unfolding round_trip_millis
round_trip_millis_bounded millis = ground arith

udp_request-OnOk : (socket : Socket) → OnOk (λ reply. reply.1 ≤ u32_max) (udp_request socket)
unfolding udp_request
udp_request-OnOk socket =
    let P : Bytes × ℕ → Type 0 = λ reply. reply.1 ≤ u32_max in
    OnOk-bind P (untimed socket.bind) _ (λ b. OnOk-bind P (untimed socket.connect) _ (λ c.
      OnOk-bind P (timed socket.send) _
        (λ s. OnOk-bind P (timed socket.recv) _ (λ r. round_trip_millis_bounded r.1))))

measured-OnOk :
    (net : Network) (endpoint : MasterEndpoint) (port : ℕ)
    → OnOk (λ m. m.1 ≤ u32_max) (query_getstatus_measured net endpoint port)
unfolding query_getstatus_measured
measured-OnOk net endpoint port =
    elim (Result-cases (udp_request (net endpoint port getstatus_request))) [
      | inl (reply, e) ↦ rw e (
          OnOk-bind (λ m. m.1 ≤ u32_max) (parsed (parse_oob_getstatus reply.0)) _
            (λ status.
              subst (OnOk (λ r. r.1 ≤ u32_max)) e
                (udp_request-OnOk (net endpoint port getstatus_request))))
      | inr (error, e) ↦ rw e tt
    ]

game_port-OnOk :
    (quoted : Text → Text) (fields : FieldMap)
    → OnOk (λ port. (0 < port) × (port ≤ u16_max)) (game_port_from_gamespy quoted fields)
unfolding game_port_from_gamespy
game_port-OnOk quoted fields =
    of_field (opt_filter (λ value. not (is_empty value)) (lookup (codes "hostport") fields))
  where
    of_parse :
        (value : Text) (parse : Option ℕ)
        → OnSome (λ n. n ≤ u16_max) parse
        → OnOk (λ port. (0 < port) × (port ≤ u16_max)) (port_of_parse quoted value parse)
    of_parse value none h = tt
    of_parse value (some zero) h = tt
    of_parse value (some (suc n)) h = (omega arith, h)

    of_field :
        (field : Option Text)
        → OnOk (λ port. (0 < port) × (port ≤ u16_max)) (port_of_field quoted field)
    of_field none = tt
    of_field (some value) =
        of_parse value (parse_unsigned u16_max value) (parse_unsigned-bounded u16_max value)

module _ (quoted : Text → Text) (net : Network) (endpoint : MasterEndpoint) where
  status_stage-Describes :
      (gamespy : FieldMap) (port : ℕ) (r : Result RequestError (StatusResponse × ℕ))
      → query_gamespy_status net endpoint ≡ ok gamespy
      → game_port_from_gamespy quoted gamespy ≡ ok port
      → query_getstatus_measured net endpoint port ≡ r
      → (0 < port) × (port ≤ u16_max)
      → OnOk (λ m. m.1 ≤ u32_max) r
      → Describes quoted net endpoint (status_stage quoted net endpoint gamespy port r)
  unfolding build_server
  status_stage-Describes gamespy port (err e) g o s p h = record {
    same = refl;
    either = refl;
    measured = tt;
    stages = refl;
    ending = no_status g o s refl;
  }
  status_stage-Describes gamespy port (ok m) g o s p h = record {
    same = refl;
    either = refl;
    measured = record {
      registered = refl;
      port_positive = p.0;
      port_bounded = p.1;
      round_trip_bounded = h;
    };
    stages = tt;
    ending = complete g o s refl refl;
  }

  port_stage-Describes :
      (gamespy : FieldMap) (r : Result NonResultReason ℕ)
      → query_gamespy_status net endpoint ≡ ok gamespy
      → game_port_from_gamespy quoted gamespy ≡ r
      → OnOk (λ port. (0 < port) × (port ≤ u16_max)) r
      → Describes quoted net endpoint (port_stage quoted net endpoint gamespy r)
  port_stage-Describes gamespy (err reason) g o h = record {
    same = refl;
    either = refl;
    measured = tt;
    stages = refl;
    ending = no_port g o refl;
  }
  port_stage-Describes gamespy (ok port) g o h =
      status_stage-Describes gamespy port (query_getstatus_measured net endpoint port) g o refl h
        (measured-OnOk net endpoint port)

  gamespy_stage-Describes :
      (r : Result RequestError FieldMap)
      → query_gamespy_status net endpoint ≡ r
      → Describes quoted net endpoint (gamespy_stage quoted net endpoint r)
  gamespy_stage-Describes (err e) g = record {
    same = refl;
    either = refl;
    measured = tt;
    stages = refl;
    ending = unheard g refl;
  }
  gamespy_stage-Describes (ok gamespy) g =
      port_stage-Describes gamespy (game_port_from_gamespy quoted gamespy) g refl
        (game_port-OnOk quoted gamespy)

  -- Whatever the sockets answer, a probe reports its own endpoint, and either a server or the
  -- reason that there is none, never both. The reason is of the first of the three steps that
  -- failed: the GameSpy request, reading the game port from its reply, or the status request to that
  -- port; a reply that was understood is recorded from the second step on. Where all three succeed
  -- there is the server built from both replies, with the endpoint, a game port from 1 to 65,535 and
  -- a round trip of at most `u32::MAX`.
  pub probe_server-Describes : Describes quoted net endpoint (probe_server quoted net endpoint)
  unfolding probe_server
  probe_server-Describes = gamespy_stage-Describes (query_gamespy_status net endpoint) refl
