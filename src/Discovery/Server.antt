-- ===== src/Discovery/Server.antt =====
-- `Server`, the outcomes of a sweep and their summary, of
-- crates/reveille-core/src/discovery/model.rs.
use reveille.Prelude.{ℕ, ◌+◌, List, Option, none, some, if◌then◌else◌, leb}
use reveille.Text.{Text}
use reveille.Text.Number.{ℤ, u32_max}
use reveille.Discovery.Model.{MasterEndpoint, Player}

-- `ReportedOccupancy`
pub record ReportedOccupancy : Type 0 where
  pub clients_reported : Option ℕ
  pub bots_reported : Option ℕ

-- `u32::checked_add`
abbrev pub checked_add : ℕ → ℕ → Option ℕ
checked_add a b = if leb (a + b) u32_max then some (a + b) else none

abbrev pub checked_sum : Option ℕ → Option ℕ → Option ℕ
checked_sum none b = none
checked_sum (some a) none = none
checked_sum (some a) (some b) = checked_add a b

-- `total_occupancy`
unfoldable pub total_occupancy : ReportedOccupancy → Option ℕ
total_occupancy o = checked_sum o.clients_reported o.bots_reported

pub record Server : Type 0 where
  pub endpoint : MasterEndpoint
  pub game_port : ℕ
  pub hostname : Text
  pub game_name : Option Text
  pub game_version : Option Text
  pub version : Option Text
  pub protocol : Option Text
  pub current_map : Option Text
  pub game_type : Option Text
  pub rotation : List Text
  pub allow_download : Option ℕ
  pub map_checksum : Option ℤ
  pub pr_downloads : Option Text
  pub minimum_ping : Option ℕ
  pub maximum_ping : Option ℕ
  pub join_window : Option ℕ
  pub reserved_slots : Option ℕ
  pub occupancy : ReportedOccupancy
  pub client_capacity : Option ℕ
  pub players : List Player
  pub pure : Option Text
  pub status_round_trip : ℕ
