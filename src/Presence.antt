-- ===== src/Presence.antt =====
-- crates/reveille-app/src/presence/mod.rs: the transitions of the shared match status, generic in
-- the connection. A counter is a `u64`, whose wrap-around is written out.
pub mod Shown
use reveille.Prelude.{
  ℕ, ◌+◌, ◌%◌, Bool, true, false, not, ◌&&◌, Option, none, some, ◌==◌, if◌then◌else◌,
}
use reveille.Text.{Text}
use reveille.Discovery.Model.{TargetGame}

-- `Activity`: the time is in seconds since the epoch.
pub record Activity : Type 0 where
  pub game : TargetGame
  pub server : Text
  pub started : ℕ

pub record Publish : Type 0 where
  pub attempt : ℕ
  pub activity : Activity

abbrev pub u64_next : ℕ → ℕ
u64_next n = (n + 1) % 0x1_0000_0000_0000_0000

-- What should show: the current match, when sharing is enabled.
abbrev pub publish_of : Bool → Option (ℕ × Activity) → ℕ → Option Publish
publish_of true (some (id, activity)) attempt =
    some (record { attempt = attempt; activity = activity })
publish_of _ _ attempt = none

abbrev pub bool_eq : Bool → Bool → Bool
bool_eq true b = b
bool_eq false b = not b

abbrev pub is_match : ℕ → Option (ℕ × Activity) → Bool
is_match id none = false
is_match id (some (current, activity)) = current == id

module _ (C : Type 0) where
  pub record State : Type 0 where
    pub enabled : Bool
    pub last_match : ℕ
    pub current : Option (ℕ × Activity)
    pub attempt : ℕ
    pub connection : Option C

module _ {C : Type 0} where
  abbrev pub initial : State C
  initial = record {
    enabled = false;
    last_match = 0;
    current = none;
    attempt = 0;
    connection = none;
  }

  unfoldable pub reset : State C → State C × Option Publish
  reset s =
      let next = u64_next s.attempt in
      (record s { attempt = next; connection = none }, publish_of s.enabled s.current next)

  unfoldable pub set_enabled : State C → Bool → State C × Option Publish
  unfolding reset
  set_enabled s enabled =
      if bool_eq s.enabled enabled then (s, none) else reset (record s { enabled = enabled })

  unfoldable pub begin : State C → Activity → State C × ℕ × Option Publish
  unfolding reset
  begin s activity =
      let id = u64_next s.last_match in
      let (after, publish) = reset (record s { last_match = id; current = some (id, activity) }) in
      (after, id, publish)

  unfoldable pub end : State C → ℕ → State C
  unfolding reset
  end s id = if is_match id s.current then (reset (record s { current = none })).0 else s

  unfoldable pub keep : State C → ℕ → C → State C × Bool
  keep s attempt connection =
      if s.attempt == attempt then (record s { connection = some connection }, true) else (s, false)
