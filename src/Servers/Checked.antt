-- ===== src/Servers/Checked.antt =====
-- What a direct check leaves in the list.
use reveille.Prelude.{
  ◌≡◌, refl, ◌∙◌, Bool, true, false, not, List, [], ◌∷◌, ◌++◌, Option, none, some, filter, find, ok,
  err, arith,
}
use reveille.Discovery.Model.{TargetGame, allied_assault, spearhead, breakthrough}
use reveille.Discovery.Server.{Server}
use reveille.Discovery.Summary.{same_game, answered_for_another_game}
use reveille.Discovery.Probe.Outcome.{ProbeOutcome, NonResult}
use reveille.Discovery.Sweep.Duplicates.{GameEndpoint, game_endpoint}
use reveille.Discovery.Sweep.Unique.{same_endpoint_refl}
use reveille.Servers.{
  ServerList, ListTicket, at_endpoint, find_server, is_stale, update_list, update_checked,
  merge_checked_server, forget_checked_server, settle_server, settle_outcome, settle_check,
}

module _ {A : Type 0} (p : A → Bool) where
  find-filter-not : (xs : List A) → find p (filter (λ x. not (p x)) xs) ≡ none
  find-filter-not [] = refl
  find-filter-not (x ∷ xs) = ground (arith, find-filter-not xs)

  find-append : (xs ys : List A) → find p xs ≡ none → find p (xs ++ ys) ≡ find p ys
  find-append [] ys h = refl
  find-append (x ∷ xs) ys h = ground (arith, find-append xs ys)

same_game_refl : (game : TargetGame) → same_game game game ≡ true
unfolding same_game
same_game_refl allied_assault = refl
same_game_refl spearhead = refl
same_game_refl breakthrough = refl

find-merge_checked_server :
    (server : Server) (servers : List Server)
    → find (at_endpoint (game_endpoint server)) (merge_checked_server server servers) ≡ some server
unfolding merge_checked_server
find-merge_checked_server server servers =
    find-append (at_endpoint (game_endpoint server)) _ (server ∷ [])
      (find-filter-not (at_endpoint (game_endpoint server)) servers)
    ∙ rw (same_endpoint_refl (game_endpoint server)) refl

module _ (ticket : ListTicket) (address : GameEndpoint) (list : ServerList) where
  -- What a check finds in the list that it was asked about: a server of this game that answered,
  -- at the address where it did, and nothing at the address asked about if none did.
  abbrev pub Settles : Option Server → Option TargetGame → ServerList → Type 0
  Settles none other left = find_server address ticket.game left ≡ err tt
  Settles (some server) (some game) left = find_server address ticket.game left ≡ err tt
  Settles (some server) none left = find_server (game_endpoint server) ticket.game left ≡ ok server

  abbrev pub other_game : Option Server → Option TargetGame
  other_game none = none
  other_game (some server) = answered_for_another_game server ticket.game

  forgotten :
      is_stale ticket list ≡ false
      → find_server address ticket.game
          (update_checked ticket (address ∷ []) (forget_checked_server address) list).0
        ≡ err tt
  unfolding update_checked update_list find_server forget_checked_server
  forgotten fresh = rw fresh (
      rw (same_game_refl ticket.game)
        (rw (find-filter-not (at_endpoint address) list.servers) refl))

  merged :
      (server : Server)
      → is_stale ticket list ≡ false
      → find_server
          (game_endpoint server)
          ticket.game
          (update_checked ticket
            (address ∷ game_endpoint server ∷ [])
            (merge_checked_server server)
            list).0
        ≡ ok server
  unfolding update_checked update_list find_server
  merged server fresh =
      rw fresh
        (rw (same_game_refl ticket.game) (rw (find-merge_checked_server server list.servers) refl))

  settle_server-Settles :
      (server : Server) (other : Option TargetGame)
      → is_stale ticket list ≡ false
      → Settles (some server) other (settle_server ticket address server other list).1
  settle_server-Settles server none fresh = merged server fresh
  settle_server-Settles server (some game) fresh = forgotten fresh

  settle_outcome-Settles :
      (server : Option Server) (reason : Option NonResult)
      → is_stale ticket list ≡ false
      → Settles server (other_game server) (settle_outcome ticket address server reason list).1
  settle_outcome-Settles none reason fresh = forgotten fresh
  settle_outcome-Settles (some server) reason fresh =
      settle_server-Settles server (answered_for_another_game server ticket.game) fresh

  -- After a check whose ticket is of the list, a server that answered for the ticket's game is the
  -- one found at its own endpoint, whatever the list held there. Where none answered, or only for
  -- another game, none is found at the address that was asked about.
  pub settle_check-Settles :
      (outcome : ProbeOutcome)
      → is_stale ticket list ≡ false
      → Settles outcome.server
          (other_game outcome.server)
          (settle_check ticket address outcome list).1
  unfolding settle_check
  settle_check-Settles outcome fresh =
      settle_outcome-Settles outcome.server outcome.non_result fresh
