-- ===== src/Tests/Servers.antt =====
-- Runs of the list of servers, and its theorems at concrete inputs.
use reveille.Prelude.{ℕ, ◌≡◌, refl, true, false, [], ◌∷◌, none, some, arith}
use reveille.Text.{codes}
use reveille.Discovery.Model.{allied_assault, spearhead}
use reveille.Discovery.Server.{Server}
use reveille.Discovery.Summary.{same_game}
use reveille.Discovery.Probe.Outcome.{ProbeOutcome}
use reveille.Discovery.Sweep.Duplicates.{GameEndpoint}
use reveille.Servers.{
  ServerList, ListTicket, begin_sweep, begin_background_sweep, update_list, update_sweep, drop_join,
  ticket_of, with_join, is_stale, with_checked, settle_check,
}
use reveille.Servers.Checked.{Settles, settle_check-Settles, other_game}
use reveille.Servers.Stale.{begin_sweep-update_list}

abbrev server_at : ℕ → Server
server_at port = record {
  endpoint = record { a = 192; b = 0; c = 2; d = 17; query_port = 12300 };
  game_port = port;
  hostname = codes "First";
  game_name = some (codes "mohaa");
  game_version = none;
  version = none;
  protocol = some (codes "8");
  current_map = none;
  game_type = none;
  rotation = [];
  allow_download = none;
  map_checksum = none;
  pr_downloads = none;
  minimum_ping = none;
  maximum_ping = none;
  join_window = none;
  reserved_slots = none;
  occupancy = record { clients_reported = none; bots_reported = none };
  client_capacity = none;
  players = [];
  pure = none;
  status_round_trip = 31;
}

abbrev at_port : ℕ → GameEndpoint
at_port port = record { a = 192; b = 0; c = 2; d = 17; game_port = port }

-- A list with two servers, in the last generation before the counter wraps.
abbrev two_servers : ServerList
two_servers = record {
  game = some allied_assault;
  generation = 18446744073709551615;
  servers = server_at 12203 ∷ server_at 12204 ∷ [];
  checked = [];
  joining = [];
}

abbrev ticket : ListTicket
ticket = ticket_of allied_assault two_servers

ticket-is_stale : is_stale ticket two_servers ≡ false
unfolding same_game
ticket-is_stale = refl

abbrev after_join : ServerList
after_join = with_join (server_at 12203) two_servers

begin_sweep-update_list_example :
    update_list ticket
      (with_checked (at_port 12203 ∷ []) (λ servers. []))
      (begin_sweep spearhead two_servers)
    ≡ (begin_sweep spearhead two_servers, false)
begin_sweep-update_list_example =
    begin_sweep-update_list two_servers spearhead allied_assault
      (with_checked (at_port 12203 ∷ []) (λ servers. [])) (ground arith)

-- A second join of the same server, a background refresh whose complete results are empty, and the
-- end of the second join.
abbrev joined_twice : ServerList
joined_twice = with_join (server_at 12203) after_join

abbrev afterwards : ServerList
afterwards =
    drop_join ticket (at_port 12203)
      (update_sweep ticket [] true (begin_background_sweep allied_assault joined_twice)).0

abbrev answered : ProbeOutcome
answered = record {
  endpoint = record { a = 192; b = 0; c = 2; d = 17; query_port = 12300 };
  server = some (server_at 12210);
  gamespy_reachable = true;
  non_result = none;
}

settle_check-Settles_example :
    Settles ticket
      (at_port 12203)
      two_servers
      answered.server
      (other_game ticket (at_port 12203) two_servers answered.server)
      (settle_check ticket (at_port 12203) answered two_servers).1
settle_check-Settles_example =
    settle_check-Settles ticket (at_port 12203) two_servers answered ticket-is_stale
