-- ===== src/Discovery/Model.antt =====
-- crates/reveille-core/src/discovery/model.rs: what a sweep reports. A wire number in a newtype is
-- the number itself.
use reveille.Prelude.{ℕ, Option, none, some, if◌then◌else◌}
use reveille.Text.Number.{ℤ}
use reveille.Text.{Text, Bytes, codes, eq_ignore_ascii_case}

-- `MasterEndpoint`: the four bytes of the IPv4 address and the query port.
pub record MasterEndpoint : Type 0 where
  pub a : ℕ
  pub b : ℕ
  pub c : ℕ
  pub d : ℕ
  pub query_port : ℕ

pub record Player : Type 0 where
  pub name : Text
  pub ping : Option ℕ
  pub kills : Option ℤ
  pub deaths : Option ℤ

-- `TargetGame`: a game family of the master.
pub data TargetGame : Type 0 where
  allied_assault spearhead breakthrough : TargetGame

abbrev pub game_name : TargetGame → Text
game_name allied_assault = codes "mohaa"
game_name spearhead = codes "mohaas"
game_name breakthrough = codes "mohaab"

abbrev pub secret_key : TargetGame → Bytes
secret_key allied_assault = codes "M5Fdwc"
secret_key spearhead = codes "h2P1c9"
secret_key breakthrough = codes "y32FDc"

-- `TargetGame::from_game_name`
unfoldable pub from_game_name : Text → Option TargetGame
unfolding eq_ignore_ascii_case
from_game_name value =
    if eq_ignore_ascii_case value (codes "mohaa")
    then some allied_assault
    else if eq_ignore_ascii_case value (codes "mohaas")
    then some spearhead
    else if eq_ignore_ascii_case value (codes "mohaab")
    then some breakthrough
    else none
