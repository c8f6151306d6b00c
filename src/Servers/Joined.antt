-- ===== src/Servers/Joined.antt =====
-- A join keeps its server while sweeps, checks and other joins overlap with it.
use reveille.Prelude.{
  ℕ, suc, ◌+◌, ◌<◌, if◌then◌else◌, ◌≡◌, Bool, true, false, List, some, find, Result, ok, err,
}
use reveille.Discovery.Model.{TargetGame}
use reveille.Discovery.Server.{Server}
use reveille.Discovery.Sweep.Duplicates.{GameEndpoint, same_endpoint, has_seen}
use reveille.Servers.{
  ServerList, ListTicket, is_game, at_endpoint, find_for_join, begin_background_sweep, drop_join,
  update_sweep,
}
use reveille.Servers.Owned.{joins_at}

-- The list that a join leaves, or another where there is none.
abbrev list_of : Result Unit (Server × ListTicket × ServerList) → ServerList → ServerList
list_of (ok (s, ticket, list)) other = list
list_of (err u) other = other

abbrev server_of : Result Unit (Server × ListTicket × ServerList) → Server → Server
server_of (ok (s, ticket, list)) other = s
server_of (err u) other = other

-- A join at the address has its server in the list, owns the address, and is counted besides
-- others at the same address.
pub record IsJoined (address : GameEndpoint) (game : TargetGame) (server : Server) (others : ℕ)
    (list : ServerList) : Type 0 where
  pub current : is_game list.game game ≡ true
  pub target : find (at_endpoint address) list.servers ≡ some server
  pub owned : has_seen address list.checked ≡ true
  pub counted : others < joins_at address list.joining

-- What overlaps with a join at the address, and how many other joins at it are running: at first
-- those that the list counted before. A background refresh of the game and the results of any
-- sweep leave them; another join, at whatever address, adds one if it is at this one; an end
-- concerns another address, or one of the others that are running at this one.
pub data Overlaps (address : GameEndpoint) (game : TargetGame) (before : ℕ) (l : ServerList)
    : ℕ → ServerList → Type 0 where
  nothing : Overlaps address game before l before l
  refresh :
      {k : ℕ} {m : ServerList}
      → Overlaps address game before l k m
      → Overlaps address game before l k (begin_background_sweep game m)
  results :
      {k : ℕ} {m : ServerList} (ticket : ListTicket) (incoming : List Server) (replace : Bool)
      → Overlaps address game before l k m
      → Overlaps address game before l k (update_sweep ticket incoming replace m).0
  join :
      {k : ℕ} {m n : ServerList} {s : Server} {ticket : ListTicket} (other : GameEndpoint)
      (other_game : TargetGame)
      → Overlaps address game before l k m
      → find_for_join other other_game m ≡ ok (s, ticket, n)
      → Overlaps address game before l (if same_endpoint address other then k + 1 else k) n
  ended_elsewhere :
      {k : ℕ} {m : ServerList} (ticket : ListTicket) (other : GameEndpoint)
      → same_endpoint address other ≡ false
      → Overlaps address game before l k m
      → Overlaps address game before l k (drop_join ticket other m)
  ended_here :
      {k : ℕ} {m : ServerList} (ticket : ListTicket) (other : GameEndpoint)
      → same_endpoint address other ≡ true
      → Overlaps address game before l (suc k) m
      → Overlaps address game before l k (drop_join ticket other m)
