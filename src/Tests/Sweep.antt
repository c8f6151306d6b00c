-- ===== src/Tests/Sweep.antt =====
-- Runs of a sweep, and its theorems at concrete inputs.
use reveille.Prelude.{
  ℕ, zero, suc, ◌≡◌, refl, Bool, true, false, List, [], ◌∷◌, ◌++◌, map, none, some, Result, arith,
  ◌==◌,
}
use reveille.Text.{Text, Bytes, codes, text_eq, find_sub}
use reveille.Prelude.{unwrap_or, filter_map}
use reveille.TreeMap.{lookup, text_ltb, insert}
use reveille.Text.{is_some, trim_end_by}
use reveille.Text.Number.{parse_unsigned}
use reveille.Text.Split.{split_once, lines}
use reveille.Discovery.Fields.{parse_backslash_text}
use reveille.Discovery.Status.{parse_oob_getstatus}
use reveille.Discovery.Probe.Build.{build_server}
use reveille.Discovery.Probe.{round_trip_millis}
use reveille.Discovery.Model.{MasterEndpoint, allied_assault}
use reveille.Discovery.Status.{oob_recv_header}
use reveille.Discovery.Probe.{
  Timed, elapsed, failed, returned, Socket, Network, probe_server, gamespy_status_request,
}
use reveille.Discovery.Probe.Outcome.{ProbeOutcome, RequestError}
use reveille.Discovery.Probe.Complete.{Describes, probe_server-Describes}
use reveille.Discovery.Sweep.{
  Sweeping, World, BrowseConfig, BrowseReport, begin, filled, inspect, sweep,
}
use reveille.Discovery.Sweep.Duplicates.{record_duplicate_game_endpoints}
use reveille.Discovery.Sweep.Collect.{probes, first, fills, Accounts, Reached-Accounts}
use reveille.Discovery.Sweep.Unique.{Condenses, record_duplicate_game_endpoints-Condenses}
use reveille.Discovery.Sweep.Fetch.{Stream, read_response, IsRead, read_response-IsRead}
use reveille.Discovery.Sweep.Report.{
  observed, Ended, AreDistinct, inspect-Ended, inspect-one_by_one,
}
use reveille.Discovery.Sweep.Answer.{IsSweep, sweep-IsSweep}
use reveille.Discovery.Summary.{summary}
use reveille.Discovery.Summary.Tally.{occurrences, summary-protocols}

abbrev as_written : Text → Text
as_written text = text

abbrev endpoint : ℕ → MasterEndpoint
endpoint port = record { a = 192; b = 0; c = 2; d = 17; query_port = port }

-- Two registrations of one game server, and one that never answers.
abbrev endpoints : List MasterEndpoint
endpoints = endpoint 12301 ∷ endpoint 12300 ∷ endpoint 12299 ∷ []

abbrev replying : Bytes → Socket
replying reply = record {
  bind = none;
  connect = none;
  send = returned tt;
  recv = returned (reply, 31);
}

abbrev silent : Socket
silent = record { bind = none; connect = none; send = returned tt; recv = elapsed }

abbrev gamespy_reply : Bytes
gamespy_reply = codes "\\hostname\\First\\hostport\\12203\\numplayers\\2\\final\\"

abbrev status_reply : Bytes
status_reply =
    oob_recv_header ++ codes "statusResponse\n\\sv_hostname\\First\\protocol\\8\n0 50 \"a\"\n"

abbrev net : Network
net e port request = elim (e.query_port == 12299) [
  | true ↦ silent
  | false ↦ elim (text_eq request gamespy_status_request) [
    | true ↦ replying gamespy_reply
    | false ↦ replying status_reply
  ]
]

abbrev config : BrowseConfig
config = record { target = allied_assault; limit = none; concurrency = 2; master_retry = 1 ∷ [] }

-- The last of the running tasks ends first.
abbrev last_first : ℕ → ℕ
last_first step = 9

abbrev open_sink : ℕ → Bool
open_sink k = true

abbrev world : World
world = observed as_written (λ n. net) last_first open_sink

-- A sink that takes the first two events only.
abbrev closing_sink : ℕ → Bool
closing_sink zero = true
closing_sink (suc zero) = true
closing_sink (suc (suc k)) = false

abbrev cut_world : World
cut_world = observed as_written (λ n. net) last_first closing_sink

probe_server-Describes_example :
    Describes as_written net (endpoint 12300) (probe_server as_written net (endpoint 12300))
probe_server-Describes_example = probe_server-Describes as_written net (endpoint 12300)

endpoints-AreDistinct : AreDistinct endpoints
endpoints-AreDistinct = ground arith

inspect-one_by_one_example :
    inspect world config endpoints none
    ≡ some (record {
      target = allied_assault;
      registered = 3;
      outcomes = record_duplicate_game_endpoints (probes world 0 endpoints);
      master_unavailable = none;
    })
inspect-one_by_one_example =
    inspect-one_by_one as_written (λ n. net) last_first open_sink config endpoints none
      endpoints-AreDistinct (λ k. refl)

inspect-Ended_example :
    (report : BrowseReport) × (inspect cut_world config endpoints none ≡ some report)
    × Ended cut_world config endpoints none report
inspect-Ended_example = inspect-Ended cut_world config endpoints none

abbrev after_fill : Sweeping
after_fill = filled world 2 (begin world endpoints)

Reached-Accounts_example : Accounts world 2 endpoints after_fill
Reached-Accounts_example = Reached-Accounts world 2 endpoints after_fill (fills first)

record_duplicate_game_endpoints-Condenses_example :
    Condenses
      (probes world 0 endpoints)
      (record_duplicate_game_endpoints (probes world 0 endpoints))
record_duplicate_game_endpoints-Condenses_example =
    record_duplicate_game_endpoints-Condenses (probes world 0 endpoints)

abbrev refused : Stream
refused = record {
  connect = failed (codes "connection refused");
  greeting = elapsed;
  write_all = λ query. elapsed;
  read = λ n. elapsed;
}

sweep-IsSweep_example :
    IsSweep as_written world
      (λ n. refused)
      config
      endpoints
      (sweep as_written world (λ n. refused) config endpoints)
sweep-IsSweep_example = sweep-IsSweep as_written world (λ n. refused) config endpoints

abbrev two_reads : ℕ → Timed Bytes
two_reads zero = returned (codes "123")
two_reads (suc zero) = returned (codes "456\\fin")
two_reads (suc (suc n)) = returned (codes "al\\")

abbrev answering : Stream
answering = record {
  connect = returned tt;
  greeting = returned (codes "\\basic\\\\secure\\ABCDEF");
  write_all = λ query. returned tt;
  read = two_reads;
}

read_response-IsRead_example :
    (r : Result RequestError Bytes) × (read_response answering ≡ some r) × IsRead answering r
read_response-IsRead_example = read_response-IsRead answering

abbrev report : BrowseReport
report = record {
  target = allied_assault;
  registered = 3;
  outcomes = probes world 0 endpoints;
  master_unavailable = none;
}

summary-protocols_example :
    unwrap_or (lookup (codes "8") (summary report).protocols) 0
    ≡ occurrences
        (codes "8")
        (filter_map (λ s. s.protocol) (filter_map (λ o. o.server) report.outcomes))
summary-protocols_example = summary-protocols report (codes "8")

abbrev listed : ProbeOutcome → ℕ × Bool
listed o = (o.endpoint.query_port, is_some o.server)

-- Two probes reach the game server, and one of them is demoted.
sweep_test :
    map listed (record_duplicate_game_endpoints (probes world 0 endpoints))
    ≡ (12299, false) ∷ (12300, true) ∷ (12301, false) ∷ []
unfolding record_duplicate_game_endpoints probe_server parse_backslash_text parse_oob_getstatus
    build_server text_ltb round_trip_millis parse_unsigned find_sub split_once lines lookup text_eq
    insert trim_end_by
sweep_test = refl
