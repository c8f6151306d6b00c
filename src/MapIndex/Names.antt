-- ===== src/MapIndex/Names.antt =====
-- `MapKey`: which names are one map.
use reveille.Prelude.{
  ℕ, ◌≡◌, refl, ap, sym, ◌∙◌, [], ◌∷◌, ◌++◌, append_assoc, some, arith, ◌==◌, if◌then◌else◌, map,
}
use reveille.Text.{
  Text, codes, lower, is_whitespace, trim, trim_by-map, trim_by_ends, strip_prefix-append,
  strip_suffix-append, to_ascii_lowercase,
}
use reveille.MapIndex.{map_key, slashed, strip_folder, strip_extension, nonempty}

-- A character as a key has it: backslashes as slashes, ASCII capitals small.
abbrev pub fold : ℕ → ℕ
fold c = lower (if c == b'\\' then b'/' else c)

map-map : (s : Text) → to_ascii_lowercase (slashed s) ≡ map fold s
map-map [] = refl
map-map (c ∷ s) = ap (◌∷◌ (fold c)) (map-map s)

is_whitespace-fold : (c : ℕ) → is_whitespace (fold c) ≡ is_whitespace c
unfolding is_whitespace lower
is_whitespace-fold c = ground arith

-- The key depends on the folded name alone.
map_key-fold :
    (s : Text) → map_key s ≡ nonempty (strip_extension (strip_folder (trim (map fold s))))
unfolding map_key
map_key-fold s =
    ap (λ (t : Text). nonempty (strip_extension (strip_folder t)))
      (map-map (trim s) ∙ sym (trim_by-map is_whitespace fold is_whitespace-fold s))

-- Names that differ in ASCII case and in the kind of their slashes have one key.
pub map_key-eq_of_fold : (a b : Text) → map fold a ≡ map fold b → map_key a ≡ map_key b
map_key-eq_of_fold a b h =
    map_key-fold a
    ∙ ap (λ (t : Text). nonempty (strip_extension (strip_folder (trim t)))) h
    ∙ sym (map_key-fold b)

untrimmed :
    (s : Text) → trim (codes "maps/" ++ (s ++ codes ".bsp")) ≡ codes "maps/" ++ (s ++ codes ".bsp")
unfolding is_whitespace
untrimmed s =
    let regroup = append_assoc s (codes ".bs") (codes "p") in
    ap (λ (t : Text). trim (codes "maps/" ++ t)) (sym regroup)
    ∙ trim_by_ends is_whitespace b'm' (codes "aps/" ++ (s ++ codes ".bs")) b'p' refl refl
    ∙ ap (λ (t : Text). codes "maps/" ++ t) regroup

strip_folder-append : (s : Text) → strip_folder (codes "maps/" ++ s) ≡ s
unfolding strip_folder
strip_folder-append s = rw (strip_prefix-append (codes "maps/") s)

strip_extension-append : (s : Text) → strip_extension (s ++ codes ".bsp") ≡ s
unfolding strip_extension
strip_extension-append s = rw (strip_suffix-append s (codes ".bsp"))

-- The path `maps/<key>.bsp`, in any case and with either kind of slash, has that key, if the key is
-- not empty.
pub map_key-path :
    (c : ℕ) (key path : Text)
    → map fold path ≡ codes "maps/" ++ ((c ∷ key) ++ codes ".bsp")
    → map_key path ≡ some (c ∷ key)
map_key-path c key path h =
    map_key-fold path
    ∙ ap (λ (t : Text). nonempty (strip_extension (strip_folder (trim t)))) h
    ∙ ap (λ (t : Text). nonempty (strip_extension (strip_folder t))) (untrimmed (c ∷ key))
    ∙ ap (λ (t : Text). nonempty (strip_extension t))
        (strip_folder-append ((c ∷ key) ++ codes ".bsp"))
    ∙ ap nonempty (strip_extension-append (c ∷ key))
