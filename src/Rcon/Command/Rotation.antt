-- ===== src/Rcon/Command/Rotation.antt =====
-- The line that replaces a rotation.
use reveille.Prelude.{
  ℕ, ◌≡◌, refl, ap, ◌∙◌, Bool, true, false, List, [], ◌∷◌, ◌++◌, ◌==◌, any, all, ok, arith, All,
  any-append,
}
use reveille.Text.{Text, codes, is_empty, is_ascii_alphanumeric}
use reveille.Text.Split.{split, split_by-append, split_by_single, join}
use reveille.Rcon.Command.{is_map_char, rotation, set_rotation, command_lines}
use reveille.Rcon.Command.Values.{map_name-Fits, IsAccepted, IsMapName}

none_of :
    (p bad : ℕ → Bool)
    → ((c : ℕ) → p c ≡ true → bad c ≡ false)
    → (s : Text) → all p s ≡ true
    → any bad s ≡ false
none_of p bad imp [] h = refl
none_of p bad imp (c ∷ s) h = ground (arith, imp c, none_of p bad imp s)

map-space : (m : Text) → IsMapName m → any (λ c. c == b' ') m ≡ false
unfolding is_ascii_alphanumeric
map-space m (value, h) =
    none_of is_map_char (λ c. c == b' ') (λ c e. ground arith) m (map_name-Fits value m h).0

map-quote : (m : Text) → IsMapName m → any (λ c. c == b'"') m ≡ false
unfolding is_ascii_alphanumeric
map-quote m (value, h) =
    none_of is_map_char (λ c. c == b'"') (λ c e. ground arith) m (map_name-Fits value m h).0

rotation-quote :
    (maps : List Text) → All IsMapName maps → any (λ c. c == b'"') (join (codes " ") maps) ≡ false
unfolding join
rotation-quote [] h = refl
rotation-quote (m ∷ []) h = map-quote m h.0
rotation-quote (m ∷ n ∷ maps) h = ground (
  arith,
  any-append (λ c. c == b'"') m (b' ' ∷ join (codes " ") (n ∷ maps)),
  map-quote m h.0,
  rotation-quote (n ∷ maps) h.1,
)

rotation-nonempty : (maps : List Text) → rotation maps ≡ ok maps → is_empty maps ≡ false
unfolding rotation
rotation-nonempty [] h = ground arith
rotation-nonempty (m ∷ maps) h = refl

-- The words of a joined rotation.
split-rotation :
    (maps : List Text)
    → All IsMapName maps
    → is_empty maps ≡ false
    → split b' ' (join (codes " ") maps) ≡ maps
unfolding join
split-rotation [] h e = ground arith
split-rotation (m ∷ []) h e = split_by_single (λ c. c == b' ') m (map-space m h.0)
split-rotation (m ∷ n ∷ maps) h e =
    split_by-append (λ c. c == b' ') b' ' m (join (codes " ") (n ∷ maps)) (map-space m h.0) refl
    ∙ ap (◌∷◌ m) (split-rotation (n ∷ maps) h.1 refl)

-- The line that replaces the rotation sets one quoted value, and its words are the maps in order:
-- no map name ends the value or runs into the next.
pub set_rotation-words :
    (maps : List Text)
    → IsAccepted (set_rotation maps)
    → (value : Text) × (command_lines (set_rotation maps)
        ≡ (codes "set sv_maplist \"" ++ value ++ codes "\"") ∷ [])
      × (any (λ c. c == b'"') value ≡ false)
      × (split b' ' value ≡ maps)
unfolding command_lines
set_rotation-words maps h = (
  join (codes " ") maps,
  refl,
  rotation-quote maps h.0,
  split-rotation maps h.0 (rotation-nonempty maps h.1),
)
