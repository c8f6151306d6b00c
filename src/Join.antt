-- ===== src/Join.antt =====
-- crates/reveille-core/src/join.rs: the state of compatibility shown before a launch, and the
-- arguments of the launch.
pub mod States
pub mod Launch
use reveille.Prelude.{
  ℕ, ◌+◌, Bool, true, false, not, ◌&&◌, List, [], ◌∷◌, ◌++◌, Option, none, some, ◌==◌,
  if◌then◌else◌, all, find, length,
}
use reveille.Text.{Text, is_empty, is_some}
use reveille.Text.Number.{ℤ}
use reveille.Discovery.Server.{Server}
use reveille.Content.Catalogue.{CatalogueResolutionPass, is_no_source}
use reveille.MapIndex.{MapIndex, map_key}
use reveille.Preflight.{
  PublishedChecksum, MapStatus, present, checksum_differs, absent, MapResult, Verdict, compatible,
  problems_found, Report, same_key, check,
}

pub data CompatibilityState : Type 0 where
  compatible_state : CompatibilityState
  needs_maps : (count : ℕ) → (shopping_list : Option CatalogueResolutionPass) → CompatibilityState
  no_source_state : (count : ℕ) → CompatibilityState
  cant_tell : CompatibilityState

-- Every needed entry was looked up, and none has a source.
abbrev pub conclusive : ℕ → Option CatalogueResolutionPass → Bool
conclusive count none = false
conclusive count (some pass) =
    is_empty pass.non_results
    && length pass.resolutions == count
    && all (λ r. is_no_source r.outcome) pass.resolutions

abbrev pub state_of : Verdict → Option CatalogueResolutionPass → CompatibilityState
state_of compatible resolution = compatible_state
state_of (problems_found absents mismatches) resolution =
    if conclusive (absents + mismatches) resolution
    then no_source_state (absents + mismatches)
    else needs_maps (absents + mismatches) resolution

unfoldable pub classify : Option Report → Option CatalogueResolutionPass → CompatibilityState
classify none resolution = cant_tell
classify (some preflight) resolution = state_of preflight.verdict resolution

-- The current map, if it has a key.
abbrev pub keyed : Option Text → List Text
keyed none = []
keyed (some current) = if is_some (map_key current) then current ∷ [] else []

unfoldable pub checked_maps : Server → List Text
checked_maps server = server.rotation ++ keyed server.current_map

pub data CurrentMapReadiness : Type 0 where
  playable missing unknown : CurrentMapReadiness

abbrev pub readiness_of : MapStatus → CurrentMapReadiness
readiness_of (present checksum checked) = playable
readiness_of _ = missing

abbrev pub result_readiness : Option MapResult → CurrentMapReadiness
result_readiness none = unknown
result_readiness (some r) = readiness_of r.status

-- The result whose key is that of the current map.
abbrev pub keyed_readiness : List MapResult → Option Text → CurrentMapReadiness
keyed_readiness maps none = unknown
keyed_readiness maps (some key) =
    result_readiness (find (λ r. same_key (map_key r.map) (some key)) maps)

unfoldable pub current_map_readiness : Option Report → Option Text → CurrentMapReadiness
current_map_readiness (some preflight) (some current) =
    keyed_readiness preflight.maps (map_key current)
current_map_readiness _ _ = unknown

pub record CompatibilityAssessment : Type 0 where
  pub state : CompatibilityState
  pub preflight : Option Report
  pub current_map : CurrentMapReadiness

-- `current_map.as_ref().zip(map_checksum)`
abbrev pub published_of : Option Text → Option ℤ → Option PublishedChecksum
published_of (some map) (some checksum) = some (record { map = map; checksum = checksum })
published_of _ _ = none

-- A server that published no rotation cannot be told compatible.
unfoldable pub assess : MapIndex → Server → Option CatalogueResolutionPass → CompatibilityAssessment
unfolding classify current_map_readiness
assess index server resolution =
    let preflight =
      check index (checked_maps server) (published_of server.current_map server.map_checksum) in
    record {
      state =
          if is_empty server.rotation
          then classify none resolution
          else classify (some preflight) resolution;
      preflight = some preflight;
      current_map = current_map_readiness (some preflight) server.current_map;
    }

unfoldable pub classify_server :
    MapIndex → Server → Option CatalogueResolutionPass → CompatibilityAssessment
unfolding assess checked_maps
classify_server index server resolution =
    if is_empty (checked_maps server)
    then record { state = classify none resolution; preflight = none; current_map = unknown }
    else assess index server resolution
