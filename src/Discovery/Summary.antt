-- ===== src/Discovery/Summary.antt =====
-- `BrowseReport::summary` and `Server::answered_for_another_game` of
-- crates/reveille-core/src/discovery/model.rs.
pub mod Tally
use reveille.Prelude.{
  ℕ, ◌+◌, ◌%◌, ◌^◌, Bool, true, false, not, List, [], ◌∷◌, Option, none, some, filter, filter_map,
  map, length, if◌then◌else◌, unwrap_or, and_then, opt_filter,
}
use reveille.Text.{Text, is_empty, is_some}
use reveille.TreeMap.{lookup, insert}
use reveille.Discovery.Model.{TargetGame, allied_assault, spearhead, breakthrough, from_game_name}
use reveille.Discovery.Server.{Server}
use reveille.Discovery.Probe.Outcome.{ProbeOutcome}
use reveille.Discovery.Sweep.{BrowseReport}

-- `sum` on `u32`, whose addition wraps in a release build.
unfoldable pub wrapping_sum : List ℕ → ℕ
wrapping_sum [] = 0
wrapping_sum (n ∷ ns) = (n + wrapping_sum ns) % 2 ^ 32

-- `*protocols.entry(protocol).or_insert(0) += 1` for each protocol.
unfoldable pub count_protocols : List (Text × ℕ) → List Text → List (Text × ℕ)
count_protocols counts [] = counts
count_protocols counts (p ∷ ps) =
    count_protocols (insert p (unwrap_or (lookup p counts) 0 + 1) counts) ps

pub record BrowseSummary : Type 0 where
  pub registered : ℕ
  pub inspected : ℕ
  pub gamespy_reachable : ℕ
  pub getstatus_reachable : ℕ
  pub clients_reported : ℕ
  pub bots_reported : ℕ
  pub rotations_published : ℕ
  pub map_checksums_published : ℕ
  pub pakradar_published : ℕ
  pub pure_published : ℕ
  pub non_results : ℕ
  pub protocols : List (Text × ℕ)

-- `filter(..).count()`
abbrev pub count {ℓ} : {A : Type ℓ} → (A → Bool) → List A → ℕ
count p xs = length (filter p xs)

-- `BrowseReport::summary`
unfoldable pub summary : BrowseReport → BrowseSummary
unfolding wrapping_sum count_protocols
summary report =
    let servers = filter_map (λ o. o.server) report.outcomes in
    record {
      registered = report.registered;
      inspected = length report.outcomes;
      gamespy_reachable = count (λ o. o.gamespy_reachable) report.outcomes;
      getstatus_reachable = length servers;
      clients_reported = wrapping_sum (filter_map (λ s. s.occupancy.clients_reported) servers);
      bots_reported = wrapping_sum (filter_map (λ s. s.occupancy.bots_reported) servers);
      rotations_published = count (λ s. not (is_empty s.rotation)) servers;
      map_checksums_published = count (λ s. is_some s.map_checksum) servers;
      pakradar_published = count (λ s. is_some s.pr_downloads) servers;
      pure_published = count (λ s. is_some s.pure) servers;
      non_results = count (λ o. is_some o.non_result) report.outcomes;
      protocols = count_protocols [] (filter_map (λ s. s.protocol) servers);
    }

-- `PartialEq` of `TargetGame`
unfoldable pub same_game : TargetGame → TargetGame → Bool
same_game allied_assault allied_assault = true
same_game spearhead spearhead = true
same_game breakthrough breakthrough = true
same_game a b = false

-- `Server::answered_for_another_game`
unfoldable pub answered_for_another_game : Server → TargetGame → Option TargetGame
unfolding from_game_name same_game
answered_for_another_game server game =
    opt_filter (λ published. not (same_game published game))
      (and_then server.game_name from_game_name)
