-- ===== src/Discovery/Probe/Players.antt =====
-- The roster that a server's two lists of players merge into.
use reveille.Prelude.{◌≡◌, refl, ap, ℕ, Option, none, some, List, [], ◌∷◌, map, ◌≢◌}
use reveille.Text.{Text}
use reveille.Discovery.Model.{Player}
use reveille.Discovery.Probe.Build.{
  take_named, with_score, scores_left, score_players, merge_players,
}

-- What the launcher shows of a player beside the scores.
abbrev pub listed : Player → Text × Option ℕ
listed player = (player.name, player.ping)

with_score-listed :
    (player : Player) (found : Option (Player × List Player))
    → listed (with_score player found) ≡ listed player
with_score-listed player none = refl
with_score-listed player (some found) = refl

score_players-listed :
    (roster scored : List Player) → map listed (score_players roster scored) ≡ map listed roster
unfolding score_players
score_players-listed [] scored = refl
score_players-listed (player ∷ roster) scored =
    rw (with_score-listed player (take_named player.name scored)) (
      ap (◌∷◌ (listed player))
        (score_players-listed roster (scores_left scored (take_named player.name scored))))

-- A roster that lists somebody keeps its players, names and pings in order, whatever the scored
-- list holds.
pub merge_players-listed :
    (roster scored : List Player)
    → roster ≢ []
    → map listed (merge_players roster scored) ≡ map listed roster
unfolding merge_players
merge_players-listed [] scored h = absurd (h refl)
merge_players-listed (player ∷ roster) scored h = score_players-listed (player ∷ roster) scored
