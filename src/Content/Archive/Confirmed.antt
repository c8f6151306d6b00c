-- ===== src/Content/Archive/Confirmed.antt =====
-- The choice of the map that a package was fetched for, and of the package among several.
use reveille.Prelude.{
  ℕ, ◌+◌, ◌≡◌, ◌<◌, refl, sym, Bool, true, ◌&&◌, List, [], ◌∷◌, Option, none, some, if◌then◌else◌,
  filter, find, head?, and_then, map, Result, ok, err, ◌>>=◌, ok_or, suc, zero, arith, All, OnSome,
  get_elem?,
}
use reveille.Text.{Text, text_eq, is_empty, is_some}
use reveille.Text.Number.{ℤ, ℤ_eq}
use reveille.MapIndex.{map_key}
use reveille.Content.Archive.{
  ArchiveError, ArchiveMap, ConfirmedMap, has_checksum, selected, confirm_map, checksum_mismatch,
  invalid_wanted_map, wanted_map_missing, confirmed_or, disambiguate_from, disambiguate_by_checksum,
  no_archive_matched_checksum,
}

abbrev pub matches_checksum : Option ℤ → ArchiveMap → Bool
matches_checksum none m = true
matches_checksum (some checksum) m = ℤ_eq m.checksum checksum

-- A map with the wanted key, and with the published checksum if there is one.
abbrev pub suits : Text → Option ℤ → ArchiveMap → Bool
suits key published m = text_eq m.key key && matches_checksum published m

-- The confirmation of a package's first suitable map, or an error where none suits.
pub data Confirms (maps : List ArchiveMap) (wanted key : Text) (published : Option ℤ)
    : Result ArchiveError ConfirmedMap → Type 0 where
  confirmed :
      (m : ArchiveMap)
      → find (suits key published) maps ≡ some m
      → Confirms maps wanted key published
          (ok (record { wanted = wanted; archive_map = m; checksum_confirmed = is_some published }))
  refused :
      (e : ArchiveError)
      → find (suits key published) maps ≡ none
      → Confirms maps wanted key published (err e)

find-filter :
    (p q : ArchiveMap → Bool) (maps : List ArchiveMap)
    → find q (filter p maps) ≡ find (λ m. p m && q m) maps
find-filter p q [] = refl
find-filter p q (m ∷ maps) = ground (arith, find-filter p q maps)

head-filter :
    (p : ArchiveMap → Bool) (maps : List ArchiveMap)
    → head? (filter p maps) ≡ find (λ m. p m && true) maps
head-filter p [] = refl
head-filter p (m ∷ maps) = ground (arith, head-filter p maps)

chosen : List ArchiveMap → Option ℤ → Option ArchiveMap
chosen matching none = head? matching
chosen matching (some checksum) = find (has_checksum checksum) matching

chosen-suits :
    (maps : List ArchiveMap) (key : Text) (published : Option ℤ)
    → chosen (filter (λ m. text_eq m.key key) maps) published ≡ find (suits key published) maps
unfolding chosen
chosen-suits maps key none = head-filter (λ m. text_eq m.key key) maps
chosen-suits maps key (some checksum) =
    find-filter (λ m. text_eq m.key key) (has_checksum checksum) maps

choice-Confirms :
    (maps matching : List ArchiveMap) (wanted key : Text) (checksum : ℤ) (o : Option ArchiveMap)
    → find (suits key (some checksum)) maps ≡ o
    → Confirms maps wanted key (some checksum) (
        ok_or o (checksum_mismatch wanted checksum (map (λ m. m.checksum) matching)) >>= λ m.
        ok (record { wanted = wanted; archive_map = m; checksum_confirmed = true }))
choice-Confirms maps matching wanted key checksum none e =
    refused (checksum_mismatch wanted checksum (map (λ m. m.checksum) matching)) e
choice-Confirms maps matching wanted key checksum (some m) e = confirmed m e

matching-Confirms :
    (maps matching : List ArchiveMap) (wanted key : Text) (published : Option ℤ)
    → chosen matching published ≡ find (suits key published) maps
    → Confirms maps wanted key published (
        if is_empty matching
        then err (wanted_map_missing wanted)
        else (selected wanted matching published >>= λ m.
            ok (record {
              wanted = wanted;
              archive_map = m;
              checksum_confirmed = is_some published;
            })))
unfolding chosen
matching-Confirms maps [] wanted key none e = refused (wanted_map_missing wanted) (sym e)
matching-Confirms maps [] wanted key (some checksum) e = refused (wanted_map_missing wanted) (sym e)
matching-Confirms maps (m ∷ ms) wanted key none e = confirmed m (sym e)
matching-Confirms maps (m ∷ ms) wanted key (some checksum) e =
    choice-Confirms maps (m ∷ ms) wanted key checksum (find (has_checksum checksum) (m ∷ ms))
      (sym e)

-- The package's first map that suits is confirmed; where none suits there is an error. So a name
-- that matches never overrides a published checksum that differs.
pub confirm_map-Confirms :
    (maps : List ArchiveMap) (wanted key : Text) (published : Option ℤ)
    → map_key wanted ≡ some key
    → Confirms maps wanted key published (confirm_map maps wanted published)
unfolding confirm_map
confirm_map-Confirms maps wanted key published k = rw k (
    matching-Confirms maps (filter (λ m. text_eq m.key key) maps) wanted key published
      (chosen-suits maps key published))

-- The first map of a package with the wanted map's key and the published checksum.
abbrev pub matching_map : List ArchiveMap → Text → ℤ → Option ArchiveMap
matching_map maps wanted published =
    and_then (map_key wanted) (λ key. find (suits key (some published)) maps)

-- The first inspected package that has such a map, with its place in the ranking.
pub data Chooses (inspections : List (List ArchiveMap)) (wanted : Text) (published : ℤ) (index : ℕ)
    : Result ArchiveError (ℕ × ConfirmedMap) → Type 0 where
  chosen_at :
      (i place : ℕ) (inspection : List ArchiveMap) (m : ArchiveMap)
      → place ≡ index + i
      → get_elem? inspections i ≡ some inspection
      → matching_map inspection wanted published ≡ some m
      → ((j : ℕ)
          → j < i
          → OnSome
              (λ earlier. matching_map earlier wanted published ≡ none)
              (get_elem? inspections j))
      → Chooses inspections wanted published index
          (ok (place, record { wanted = wanted; archive_map = m; checksum_confirmed = true }))
  none_chosen :
      All (λ inspection. matching_map inspection wanted published ≡ none) inspections
      → Chooses inspections wanted published index
          (err (no_archive_matched_checksum wanted published))

shifted :
    (inspection : List ArchiveMap) (rest : List (List ArchiveMap)) (wanted : Text) (published : ℤ)
    (i : ℕ)
    → matching_map inspection wanted published ≡ none
    → ((j : ℕ)
        → j < i
        → OnSome (λ earlier. matching_map earlier wanted published ≡ none) (get_elem? rest j))
    → (j : ℕ) → j < suc i
    → OnSome
        (λ earlier. matching_map earlier wanted published ≡ none)
        (get_elem? (inspection ∷ rest) j)
shifted inspection rest wanted published i h before zero below = h
shifted inspection rest wanted published i h before (suc j) below = before j (omega (arith, below))

-- What a confirmation with a published checksum says, for a wanted name with a key or without.
pub data Matches (maps : List ArchiveMap) (wanted : Text) (published : ℤ)
    : Result ArchiveError ConfirmedMap → Type 0 where
  matched :
      (m : ArchiveMap)
      → matching_map maps wanted published ≡ some m
      → Matches maps wanted published
          (ok (record { wanted = wanted; archive_map = m; checksum_confirmed = true }))
  unmatched :
      (e : ArchiveError)
      → matching_map maps wanted published ≡ none
      → Matches maps wanted published (err e)

Confirms-Matches :
    (maps : List ArchiveMap) (wanted key : Text) (published : ℤ)
    {r : Result ArchiveError ConfirmedMap}
    → map_key wanted ≡ some key
    → Confirms maps wanted key (some published) r
    → Matches maps wanted published r
Confirms-Matches maps wanted key published k (confirmed m e) = matched m (rw k e)
Confirms-Matches maps wanted key published k (refused x e) = unmatched x (rw k e)

confirm_map-Matches :
    (maps : List ArchiveMap) (wanted : Text) (published : ℤ)
    → Matches maps wanted published (confirm_map maps wanted (some published))
unfolding confirm_map
confirm_map-Matches maps wanted published = by_key (map_key wanted) refl
  where
    by_key :
        (o : Option Text)
        → map_key wanted ≡ o
        → Matches maps wanted published (confirm_map maps wanted (some published))
    by_key none k = rw k (unmatched (invalid_wanted_map wanted) (rw k refl))
    by_key (some key) k =
        Confirms-Matches maps wanted key published k
          (confirm_map-Confirms maps wanted key (some published) k)

step-Chooses :
    (inspection : List ArchiveMap) (rest : List (List ArchiveMap)) (wanted : Text) (published : ℤ)
    (index : ℕ) {r : Result ArchiveError ConfirmedMap}
    {later : Result ArchiveError (ℕ × ConfirmedMap)}
    → Matches inspection wanted published r
    → Chooses rest wanted published (suc index) later
    → Chooses (inspection ∷ rest) wanted published index (confirmed_or index r later)
step-Chooses inspection rest wanted published index (matched m e) h =
    chosen_at 0 index inspection m (omega arith) refl e (λ j below. absurd (omega (arith, below)))
step-Chooses inspection rest wanted published index (unmatched x e)
      (chosen_at i place found m p at sure before) =
    chosen_at (suc i) place found m (omega (arith, p)) at sure
      (shifted inspection rest wanted published i e before)
step-Chooses inspection rest wanted published index (unmatched x e) (none_chosen h) =
    none_chosen (e, h)

disambiguate_from-Chooses :
    (inspections : List (List ArchiveMap)) (wanted : Text) (published : ℤ) (index : ℕ)
    → Chooses inspections wanted published index
        (disambiguate_from index inspections wanted published)
unfolding disambiguate_from
disambiguate_from-Chooses [] wanted published index = none_chosen tt
disambiguate_from-Chooses (inspection ∷ rest) wanted published index =
    step-Chooses inspection rest wanted published index
      (confirm_map-Matches inspection wanted published)
      (disambiguate_from-Chooses rest wanted published (suc index))

-- Of the ranked packages, the first one that has a map with the key of the wanted name and the
-- published checksum is chosen, with its index in the ranking and its first such map. There is an
-- error exactly when none has one, also where the wanted name has no key.
pub disambiguate_by_checksum-Chooses :
    (inspections : List (List ArchiveMap)) (wanted : Text) (published : ℤ)
    → Chooses inspections wanted published 0 (disambiguate_by_checksum inspections wanted published)
unfolding disambiguate_by_checksum
disambiguate_by_checksum-Chooses inspections wanted published =
    disambiguate_from-Chooses inspections wanted published 0
