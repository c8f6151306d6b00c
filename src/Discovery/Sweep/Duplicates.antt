-- ===== src/Discovery/Sweep/Duplicates.antt =====
-- `record_duplicate_game_endpoints` of crates/reveille-core/src/discovery/client.rs: after a stable
-- sort by endpoint, a server whose address and game port an earlier one has is demoted.
use reveille.Prelude.{ℕ, Bool, ◌&&◌, List, [], ◌∷◌, Option, none, some, ◌==◌, any, if◌then◌else◌}
use reveille.TreeMap.{text_ltb}
use reveille.Discovery.Model.{MasterEndpoint}
use reveille.Discovery.Server.{Server}
use reveille.Discovery.Probe.Outcome.{ProbeOutcome, endpoint_deduplication, duplicate_endpoint}

-- The derived order of `MasterEndpoint`: the address by its bytes, then the query port.
abbrev pub endpoint_key : MasterEndpoint → List ℕ
endpoint_key e = e.a ∷ e.b ∷ e.c ∷ e.d ∷ e.query_port ∷ []

abbrev pub key : ProbeOutcome → List ℕ
key outcome = endpoint_key outcome.endpoint

-- Of two equal endpoints the one that came first stays first.
unfoldable pub insert_outcome : ProbeOutcome → List ProbeOutcome → List ProbeOutcome
insert_outcome o [] = o ∷ []
insert_outcome o (p ∷ rest) =
    let later = p ∷ insert_outcome o rest in
    if text_ltb (key p) (key o) then later else o ∷ p ∷ rest

-- `sort_by_key`
unfoldable pub sort_outcomes : List ProbeOutcome → List ProbeOutcome
unfolding insert_outcome
sort_outcomes [] = []
sort_outcomes (o ∷ rest) = insert_outcome o (sort_outcomes rest)

-- The address and game port that a join uses.
pub record GameEndpoint : Type 0 where
  pub a : ℕ
  pub b : ℕ
  pub c : ℕ
  pub d : ℕ
  pub game_port : ℕ

abbrev pub game_endpoint : Server → GameEndpoint
game_endpoint s = record {
  a = s.endpoint.a;
  b = s.endpoint.b;
  c = s.endpoint.c;
  d = s.endpoint.d;
  game_port = s.game_port;
}

unfoldable pub same_endpoint : GameEndpoint → GameEndpoint → Bool
same_endpoint x y =
    x.a == y.a && x.b == y.b && x.c == y.c && x.d == y.d && x.game_port == y.game_port

-- The `HashSet` of the endpoints seen.
abbrev pub has_seen : GameEndpoint → List GameEndpoint → Bool
has_seen x seen = any (same_endpoint x) seen

abbrev pub demoted : ProbeOutcome → ℕ → ProbeOutcome
demoted outcome port = record {
  endpoint = outcome.endpoint;
  gamespy_reachable = outcome.gamespy_reachable;
  server = none;
  non_result = some (record { stage = endpoint_deduplication; reason = duplicate_endpoint port });
}

-- The step for an outcome: what it becomes, and what is seen afterwards.
unfoldable pub demote_step :
    ProbeOutcome → Option Server → List GameEndpoint → ProbeOutcome × List GameEndpoint
unfolding same_endpoint
demote_step outcome none seen = (outcome, seen)
demote_step outcome (some server) seen =
    if has_seen (game_endpoint server) seen
    then (demoted outcome server.game_port, seen)
    else (outcome, game_endpoint server ∷ seen)

unfoldable pub demote_seen : List GameEndpoint → List ProbeOutcome → List ProbeOutcome
unfolding demote_step
demote_seen seen [] = []
demote_seen seen (o ∷ rest) =
    let step = demote_step o o.server seen in step.0 ∷ demote_seen step.1 rest

unfoldable pub record_duplicate_game_endpoints : List ProbeOutcome → List ProbeOutcome
unfolding sort_outcomes demote_seen
record_duplicate_game_endpoints outcomes = demote_seen [] (sort_outcomes outcomes)
