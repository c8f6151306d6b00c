-- ===== src/MapIndex/Lookup.antt =====
-- The index against the list of the files found: the engine loads the one that was found last.
use reveille.Prelude.{
  ◌≡◌, refl, ap, sym, ◌∙◌, List, [], ◌∷◌, ◌++◌, append_assoc, append-nil, Option, none, some, ok,
  bind-eq-ok, arith, if◌then◌else◌, filter, reverse, map, inl, inr, Bool-cases,
}
use reveille.Text.{Text, text_eq, text_eq_iff}
use reveille.TreeMap.{lookup, lookup-insert}
use reveille.MapIndex.{
  Provider, GameMap, MapIndex, empty_index, extended, GameDirectory, in_lookup_order, reversed_maps,
  scan_directories, scan_chain,
}
use reveille.MapIndex.Found.{Found, found_chain, insert_found, insert_all, maps-scan_directories}

-- What was found of one map.
abbrev pub matching : Text → List Found → List Found
matching key = filter (λ f. text_eq key f.key)

abbrev pub last_display : Text → List Found → Text
last_display display [] = display
last_display display (f ∷ fs) = last_display f.display fs

-- The map that the index must hold: the name shown is that of the last file found, and the files
-- stand in reverse.
abbrev pub as_map : Text → List Found → Option GameMap
as_map key [] = none
as_map key (f ∷ fs) = some (record {
  name = key;
  display_name = last_display f.display fs;
  providers = reverse (map (λ g. g.provider) (f ∷ fs));
})

-- What the insertions leave under a key.
abbrev gather : Text → List Found → Option GameMap → Option GameMap
gather key [] old = old
gather key (f ∷ fs) old =
    gather key fs (if text_eq key f.key then some (extended key f.display f.provider old) else old)

lookup-insert_found :
    (key : Text) (f : Found) (maps : List (Text × GameMap))
    → lookup key (insert_found f maps) ≡ (
        if text_eq key f.key
        then some (extended key f.display f.provider (lookup key maps))
        else lookup key maps)
unfolding insert_found
lookup-insert_found key f maps = elim (Bool-cases (text_eq key f.key)) [
  | inl same ↦
      lookup-insert key f.key (extended f.key f.display f.provider (lookup f.key maps)) maps
      ∙ rw (sym ((text_eq_iff key f.key).0 same)) refl
  | inr other ↦
      lookup-insert key f.key (extended f.key f.display f.provider (lookup f.key maps)) maps
      ∙ rw other refl
]

lookup-insert_all :
    (key : Text) (fs : List Found) (maps : List (Text × GameMap))
    → lookup key (insert_all fs maps) ≡ gather key fs (lookup key maps)
unfolding insert_all
lookup-insert_all key [] maps = refl
lookup-insert_all key (f ∷ fs) maps =
    lookup-insert_all key fs (insert_found f maps)
    ∙ ap (gather key fs) (lookup-insert_found key f maps)

-- The map after more files, of which `fs` are of this map.
abbrev grown : GameMap → List Found → GameMap
grown m fs = record {
  name = m.name;
  display_name = last_display m.display_name fs;
  providers = m.providers ++ map (λ g. g.provider) fs;
}

gather-some :
    (key : Text) (fs : List Found) (m : GameMap)
    → gather key fs (some m) ≡ some (grown m (matching key fs))
gather-some key [] m = cc (append-nil m.providers)
gather-some key (f ∷ fs) m = elim (Bool-cases (text_eq key f.key)) [
  | inl same ↦ rw same (
      gather-some key fs (extended key f.display f.provider (some m))
      ∙ ap
          (λ (ps : List Provider). some (record {
            name = m.name;
            display_name = last_display f.display (matching key fs);
            providers = ps;
          }))
          (append_assoc m.providers (f.provider ∷ []) (map (λ g. g.provider) (matching key fs))))
  | inr other ↦ rw other (gather-some key fs m)
]

-- The same with the files in the order of the scan.
abbrev as_found : Text → List Found → Option GameMap
as_found key [] = none
as_found key (f ∷ fs) = some (record {
  name = key;
  display_name = last_display f.display fs;
  providers = map (λ g. g.provider) (f ∷ fs);
})

gather-none : (key : Text) (fs : List Found) → gather key fs none ≡ as_found key (matching key fs)
gather-none key [] = refl
gather-none key (f ∷ fs) = elim (Bool-cases (text_eq key f.key)) [
  | inl same ↦ rw same (gather-some key fs (extended key f.display f.provider none))
  | inr other ↦ rw other (gather-none key fs)
]

abbrev reordered : Option GameMap → Option GameMap
reordered none = none
reordered (some m) = some (in_lookup_order m)

lookup-reversed_maps :
    (key : Text) (maps : List (Text × GameMap))
    → lookup key (reversed_maps maps) ≡ reordered (lookup key maps)
unfolding lookup
lookup-reversed_maps key [] = refl
lookup-reversed_maps key ((k, m) ∷ maps) = elim (Bool-cases (text_eq key k)) [
  | inl same ↦ rw same
  | inr other ↦ rw other (lookup-reversed_maps key maps)
]

reordered-as_found : (key : Text) (fs : List Found) → reordered (as_found key fs) ≡ as_map key fs
reordered-as_found key [] = refl
reordered-as_found key (f ∷ fs) = refl

-- If the scan of a chain succeeds, the index has under each key exactly the files found of that
-- map: the last one found first, which the engine loads, and shown by its spelling.
pub lookup-scan_chain :
    (ds : List GameDirectory) (index : MapIndex) (key : Text)
    → scan_chain ds ≡ ok index
    → lookup key index.maps ≡ as_map key (matching key (found_chain ds))
unfolding scan_chain
lookup-scan_chain ds index key h =
    let (scanned, first, last) = bind-eq-ok (scan_directories ds empty_index) _ h in
    let reversed : index.maps ≡ reversed_maps scanned.maps = ground (arith, last) in
    ap (lookup key)
      (reversed ∙ ap reversed_maps (maps-scan_directories ds empty_index scanned first))
    ∙ lookup-reversed_maps key (insert_all (found_chain ds) [])
    ∙ ap reordered (
        lookup-insert_all key (found_chain ds) []
        ∙ (let start : lookup {V = GameMap} key [] ≡ none = unfold lookup in refl in
            ap (gather key (found_chain ds)) start)
        ∙ gather-none key (found_chain ds))
    ∙ reordered-as_found key (matching key (found_chain ds))
