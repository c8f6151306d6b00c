-- ===== src/Servers.antt =====
-- crates/reveille-app/src/servers/mod.rs and servers/check.rs: the list of servers that joins are
-- prepared from, written by sweeps, checks and joins that overlap. The list stands behind a lock,
-- so each operation is one step.
pub mod Stale
pub mod Owned
pub mod Joined
pub mod Checked
use reveille.Prelude.{
  ℕ, ◌+◌, ◌-◌, ◌%◌, ◌^◌, Bool, true, false, not, ◌&&◌, ◌||◌, List, [], ◌∷◌, ◌++◌, Option, none,
  some, map, filter, find, any, if◌then◌else◌, ◌==◌, Result, ok, err, ok_or, ◌>>=◌, map_or,
}
use reveille.Discovery.Model.{TargetGame}
use reveille.Discovery.Server.{Server}
use reveille.Discovery.Summary.{same_game, answered_for_another_game}
use reveille.Discovery.Probe.Outcome.{ProbeOutcome, NonResult}
use reveille.Discovery.Sweep.Duplicates.{GameEndpoint, game_endpoint, same_endpoint, has_seen}

-- `List`: `checked` is a set, and `joining` the number of joins at each endpoint.
pub record ServerList : Type 0 where
  pub game : Option TargetGame
  pub generation : ℕ
  pub servers : List Server
  pub checked : List GameEndpoint
  pub joining : List (GameEndpoint × ℕ)

abbrev pub empty_list : ServerList
empty_list = record { game = none; generation = 0; servers = []; checked = []; joining = [] }

pub record ListTicket : Type 0 where
  pub game : TargetGame
  pub generation : ℕ

abbrev pub is_game : Option TargetGame → TargetGame → Bool
is_game none game = false
is_game (some current) game = same_game current game

abbrev pub at_endpoint : GameEndpoint → Server → Bool
at_endpoint address server = same_endpoint (game_endpoint server) address

-- `List::find` of a parsed address: the only error left is that the server is gone.
unfoldable pub find_server : GameEndpoint → TargetGame → ServerList → Result Unit Server
find_server address game list =
    if is_game list.game game then ok_or (find (at_endpoint address) list.servers) tt else err tt

-- `*joining.entry(address).or_default() += 1`
unfoldable pub add_join : GameEndpoint → List (GameEndpoint × ℕ) → List (GameEndpoint × ℕ)
add_join address [] = (address, 1) ∷ []
add_join address ((a, n) ∷ rest) =
    let later = (a, n) ∷ add_join address rest in
    if same_endpoint a address then (a, n + 1) ∷ rest else later

-- The count of an endpoint goes down by one, and at 0 it is removed.
unfoldable pub end_join : GameEndpoint → List (GameEndpoint × ℕ) → List (GameEndpoint × ℕ)
end_join address [] = []
end_join address ((a, n) ∷ rest) =
    let later = (a, n) ∷ end_join address rest in
    if same_endpoint a address then (if n - 1 == 0 then rest else (a, n - 1) ∷ rest) else later

abbrev pub ticket_of : TargetGame → ServerList → ListTicket
ticket_of game list = record { game = game; generation = list.generation }

abbrev pub with_join : Server → ServerList → ServerList
with_join server l = record {
  game = l.game;
  generation = l.generation;
  servers = l.servers;
  checked = game_endpoint server ∷ l.checked;
  joining = add_join (game_endpoint server) l.joining;
}

-- `Listing::find_for_join`: the server, the ticket of its ownership, and the list.
unfoldable pub find_for_join :
    GameEndpoint → TargetGame → ServerList → Result Unit (Server × ListTicket × ServerList)
unfolding find_server add_join
find_for_join address game list = do
  server ← find_server address game list
  ok (server, ticket_of game list, with_join server list)

-- `Listing::begin_sweep`: the generation wraps.
unfoldable pub begin_sweep : TargetGame → ServerList → ServerList
begin_sweep game list = record {
  game = some game;
  generation = (list.generation + 1) % 2 ^ 64;
  servers = [];
  checked = [];
  joining = [];
}

-- `Listing::begin_background_sweep`
unfoldable pub begin_background_sweep : TargetGame → ServerList → ServerList
unfolding begin_sweep
begin_background_sweep game list =
    if is_game list.game game
    then record {
      game = list.game;
      generation = list.generation;
      servers = list.servers;
      checked = map (λ j. j.0) list.joining;
      joining = list.joining;
    }
    else begin_sweep game list

-- Whether a ticket is of another list.
abbrev pub is_stale : ListTicket → ServerList → Bool
is_stale ticket list =
    not (list.generation == ticket.generation)
    || map_or list.game false (λ game. not (same_game game ticket.game))

-- `Listing::update_list`: the list afterwards, and whether the change was made.
unfoldable pub update_list : ListTicket → (ServerList → ServerList) → ServerList → ServerList × Bool
update_list ticket change list = if is_stale ticket list then (list, false) else (
  change (record {
    game = some ticket.game;
    generation = list.generation;
    servers = list.servers;
    checked = list.checked;
    joining = list.joining;
  }),
  true,
)

abbrev pub without_join : GameEndpoint → ServerList → ServerList
without_join address l = record {
  game = l.game;
  generation = l.generation;
  servers = l.servers;
  checked = l.checked;
  joining = end_join address l.joining;
}

-- The end of a `JoinOwnership`.
unfoldable pub drop_join : ListTicket → GameEndpoint → ServerList → ServerList
unfolding update_list end_join
drop_join ticket address list = (update_list ticket (without_join address) list).0

abbrev pub is_in : List GameEndpoint → Server → Bool
is_in addresses server = has_seen (game_endpoint server) addresses

-- What a sweep makes of the servers: those that a check or a join owns are left alone.
unfoldable pub swept : Bool → List GameEndpoint → List Server → List Server → List Server
swept replace checked incoming servers =
    let fresh = filter (λ s. not (is_in checked s)) incoming in
    if replace
    then filter (is_in checked) servers ++ fresh
    else filter (λ s. not (is_in (map game_endpoint fresh) s)) servers ++ fresh

abbrev pub with_swept : List Server → Bool → ServerList → ServerList
with_swept incoming replace l = record {
  game = l.game;
  generation = l.generation;
  servers = swept replace l.checked incoming l.servers;
  checked = l.checked;
  joining = l.joining;
}

-- `Listing::update_sweep`
unfoldable pub update_sweep : ListTicket → List Server → Bool → ServerList → ServerList × Bool
unfolding update_list swept
update_sweep ticket incoming replace list = update_list ticket (with_swept incoming replace) list

abbrev pub with_checked : List GameEndpoint → (List Server → List Server) → ServerList → ServerList
with_checked addresses change l = record {
  game = l.game;
  generation = l.generation;
  servers = change l.servers;
  checked = addresses ++ l.checked;
  joining = l.joining;
}

-- `Listing::update_checked`
unfoldable pub update_checked :
    ListTicket → List GameEndpoint → (List Server → List Server) → ServerList → ServerList × Bool
unfolding update_list
update_checked ticket addresses change list =
    update_list ticket (with_checked addresses change) list

unfoldable pub merge_checked_server : Server → List Server → List Server
merge_checked_server server servers =
    filter (λ s. not (same_endpoint (game_endpoint s) (game_endpoint server))) servers
    ++ (server ∷ [])

unfoldable pub forget_checked_server : GameEndpoint → List Server → List Server
forget_checked_server address servers = filter (λ s. not (at_endpoint address s)) servers

-- What a check reports: the row is classified when it is shown.
pub record CheckResult : Type 0 where
  pub row : Option Server
  pub non_result : Option NonResult
  pub other_game : Option TargetGame

module _ (ticket : ListTicket) (address : GameEndpoint) where
  -- A server that answered, for the game of the session or for another.
  abbrev pub settle_server : Server → Option TargetGame → ServerList → CheckResult × ServerList
  settle_server server (some published) list = (
    record { row = none; non_result = none; other_game = some published },
    (update_checked ticket (address ∷ []) (forget_checked_server address) list).0,
  )
  settle_server server none list = (
    record { row = some server; non_result = none; other_game = none },
    (update_checked ticket (address ∷ game_endpoint server ∷ []) (merge_checked_server server)
        list).0,
  )

  abbrev pub settle_outcome :
      Option Server → Option NonResult → ServerList → CheckResult × ServerList
  settle_outcome none reason list = (
    record { row = none; non_result = reason; other_game = none },
    (update_checked ticket (address ∷ []) (forget_checked_server address) list).0,
  )
  settle_outcome (some server) reason list =
      settle_server server (answered_for_another_game server ticket.game) list

  -- `settle_check`
  unfoldable pub settle_check : ProbeOutcome → ServerList → CheckResult × ServerList
  unfolding update_checked forget_checked_server merge_checked_server
  settle_check outcome list = settle_outcome outcome.server outcome.non_result list
