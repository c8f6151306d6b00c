-- ===== src/Discovery/Probe/Build.antt =====
-- `build_server` of crates/reveille-core/src/discovery/client.rs: one server from its two replies.
use reveille.Prelude.{
  ℕ, ◌-◌, Bool, not, ◌||◌, List, [], ◌∷◌, Option, none, some, if◌then◌else◌, unwrap_or, or_else,
  opt_filter, and_then, opt_map, map_or,
}
use reveille.Text.{Text, codes, is_empty, text_eq, contains, to_ascii_lowercase}
use reveille.Text.Split.{words}
use reveille.Text.Number.{parse_unsigned, parse_i32, u32_max}
use reveille.TreeMap.{lookup}
use reveille.Discovery.Model.{MasterEndpoint, Player}
use reveille.Discovery.Fields.{FieldMap}
use reveille.Discovery.Status.{gamespy_players}
use reveille.Discovery.Server.{Server}

abbrev pub nonempty : FieldMap → Text → Option Text
nonempty fields key = opt_filter (λ value. not (is_empty value)) (lookup key fields)

abbrev pub parse_u32 : FieldMap → Text → Option ℕ
parse_u32 fields key = and_then (lookup key fields) (parse_unsigned u32_max)

unfoldable pub is_openmohaa_version : Text → Bool
is_openmohaa_version version =
    contains (codes "openmohaa") (to_ascii_lowercase version)
    || contains (codes "(opm)") (to_ascii_lowercase version)

-- `scored.iter().position(|other| other.name == name)` with `scored.remove(index)`: the first of
-- the name, and the list without it.
unfoldable pub take_named : Text → List Player → Option (Player × List Player)
take_named name [] = none
take_named name (other ∷ scored) =
    let later = opt_map (λ found. (found.0, other ∷ found.1)) (take_named name scored) in
    if text_eq other.name name then some (other, scored) else later

abbrev pub with_score : Player → Option (Player × List Player) → Player
with_score player none = player
with_score player (some (other, rest)) = record {
  name = player.name;
  ping = player.ping;
  kills = other.kills;
  deaths = other.deaths;
}

-- The scores left for the players behind.
abbrev pub scores_left : List Player → Option (Player × List Player) → List Player
scores_left scored none = scored
scores_left scored (some (other, rest)) = rest

-- The closure of `merge_players` over the roster, with the scores that it takes from.
unfoldable pub score_players : List Player → List Player → List Player
unfolding take_named
score_players [] scored = []
score_players (player ∷ roster) scored =
    let found = take_named player.name scored in
    with_score player found ∷ score_players roster (scores_left scored found)

unfoldable pub merge_players : List Player → List Player → List Player
unfolding score_players
merge_players [] scored = scored
merge_players (player ∷ roster) scored = score_players (player ∷ roster) scored

-- Only an OpenMoHAA server's `minplayers` counts its bots beside its clients.
unfoldable pub bots_reported : FieldMap → Option Text → Option ℕ → Option ℕ
unfolding is_openmohaa_version
bots_reported gamespy version clients = and_then (opt_filter is_openmohaa_version version) (λ v.
    and_then (parse_u32 gamespy (codes "minplayers"))
      (λ minimum. opt_map (λ count. minimum - count) clients))

unfoldable pub build_server : MasterEndpoint → ℕ → FieldMap → FieldMap → List Player → ℕ → Server
unfolding bots_reported merge_players
build_server endpoint game_port gamespy status status_players round_trip =
    let version = nonempty status (codes "version") in
    let clients = parse_u32 gamespy (codes "numplayers") in
    record {
      endpoint = endpoint;
      game_port = game_port;
      hostname =
          unwrap_or
            (or_else (nonempty status (codes "sv_hostname")) (nonempty gamespy (codes "hostname")))
            [];
      game_name = nonempty gamespy (codes "gamename");
      game_version = nonempty gamespy (codes "gamever");
      version = version;
      protocol = nonempty status (codes "protocol");
      current_map =
          or_else (nonempty status (codes "mapname")) (nonempty gamespy (codes "mapname"));
      game_type =
          or_else (nonempty status (codes "g_gametypestring"))
            (nonempty gamespy (codes "gametype"));
      rotation = map_or (lookup (codes "sv_maplist") status) [] words;
      allow_download = parse_u32 status (codes "sv_allowDownload");
      map_checksum = and_then (lookup (codes "sv_mapChecksum") status) parse_i32;
      pr_downloads = nonempty status (codes "pr_downloads");
      minimum_ping = parse_u32 status (codes "sv_minPing");
      maximum_ping = parse_u32 status (codes "sv_maxPing");
      join_window = parse_u32 status (codes "g_allowjointime");
      reserved_slots = parse_u32 status (codes "sv_privateClients");
      occupancy = record {
        clients_reported = clients;
        bots_reported = bots_reported gamespy version clients;
      };
      client_capacity =
          or_else (parse_u32 gamespy (codes "maxplayers"))
            (parse_u32 status (codes "sv_maxclients"));
      players = merge_players status_players (gamespy_players gamespy);
      pure = nonempty status (codes "pure");
      status_round_trip = round_trip;
    }
