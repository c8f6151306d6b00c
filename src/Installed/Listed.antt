-- ===== src/Installed/Listed.antt =====
-- `best_match` and `item_state` of crates/reveille-app/src/catalogue/mod.rs: the entry for a map that
-- servers play, and what the page shows for an entry.
use reveille.Prelude.{
  ℕ, suc, ◌≡◌, refl, ap, ◌∙◌, Bool, true, false, ◌&&◌, ◌||◌, List, [], ◌∷◌, Option, none, some,
  filter, find, any, get_elem?, or_else, unwrap_or, map_or, opt_map, if◌then◌else◌, arith, inl, inr,
  Bool-cases,
}
use reveille.Text.{Text, text_eq, is_some, to_ascii_lowercase}
use reveille.MapIndex.{MapIndex, index_get}
use reveille.Content.Browse.Entry.{CatalogueEntry, MohDbFile}
use reveille.Installed.{Disk, InstalledItem, is_recorded}

abbrev pub is_exact : Text → CatalogueEntry → Bool
is_exact key entry = map_or entry.map_key false (λ k. text_eq k key)

-- `Iterator::position`
abbrev position : {A : Type 0} → (A → Bool) → List A → Option ℕ
position p [] = none
position p (x ∷ xs) = let later = position p xs in if p x then some 0 else opt_map suc later

abbrev pub has_file : CatalogueEntry → Bool
has_file entry = is_some entry.file

-- `best_match`
unfoldable pub best_match : List CatalogueEntry → Text → Option CatalogueEntry
best_match entries key =
    let exact = filter (is_exact key) entries in
    get_elem? exact (unwrap_or (position has_file exact) 0)

pub data ItemState : Type 0 where
  unavailable installed_by_us present available : ItemState

abbrev holds_map : Option MapIndex → Option Text → Bool
holds_map (some maps) (some name) = is_some (index_get maps name)
holds_map _ _ = false

abbrev file_state :
    Disk → CatalogueEntry → List InstalledItem → List Text → Bool → MohDbFile → ItemState
file_state disk entry installed packages has_map file =
    if is_recorded disk installed entry.id file.filename
    then installed_by_us
    else (if has_map || any (text_eq (to_ascii_lowercase file.filename)) packages
        then present
        else available)

-- `item_state`
unfoldable pub item_state :
    Disk → CatalogueEntry → List InstalledItem → List Text → Option MapIndex → ItemState
item_state disk entry installed packages maps =
    map_or entry.file unavailable
      (file_state disk entry installed packages (holds_map maps entry.map_name))

find-position :
    {A : Type 0} (p : A → Bool) (xs : List A)
    → map_or (position p xs) none (get_elem? xs) ≡ find p xs
find-position p [] = refl
find-position p (x ∷ xs) = elim (Bool-cases (p x)) [
  | inl here ↦ rw here refl
  | inr later ↦ rw later (shifted (position p xs) ∙ find-position p xs)
]
  where
    shifted :
        (o : Option ℕ)
        → map_or (opt_map suc o) none (get_elem? (x ∷ xs)) ≡ map_or o none (get_elem? xs)
    shifted none = refl
    shifted (some i) = refl

find-filter :
    (p q : CatalogueEntry → Bool) (xs : List CatalogueEntry)
    → find q (filter p xs) ≡ find (λ x. p x && q x) xs
find-filter p q [] = refl
find-filter p q (x ∷ xs) = ground (arith, find-filter p q xs)

first-position :
    (o : Option ℕ) (xs : List CatalogueEntry)
    → get_elem? xs (unwrap_or o 0) ≡ map_or o (find (λ x. true) xs) (get_elem? xs)
first-position none [] = refl
first-position none (x ∷ xs) = refl
first-position (some i) xs = refl

is_some-position :
    {A : Type 0} (p : A → Bool) (xs : List A) → is_some (find p xs) ≡ is_some (position p xs)
is_some-position p [] = refl
is_some-position p (x ∷ xs) = elim (Bool-cases (p x)) [
  | inl here ↦ rw here refl
  | inr later ↦ rw later (is_some-position p xs ∙ same (position p xs))
]
  where
    same : (o : Option ℕ) → is_some o ≡ is_some (opt_map suc o)
    same none = refl
    same (some i) = refl

or_else-position :
    (xs : List CatalogueEntry) (o : Option ℕ) (f d : Option CatalogueEntry)
    → map_or o none (get_elem? xs) ≡ f
    → is_some f ≡ is_some o
    → map_or o d (get_elem? xs) ≡ or_else f d
or_else-position xs none none d e h = refl
or_else-position xs none (some x) d e h = cc h
or_else-position xs (some i) none d e h = cc h
or_else-position xs (some i) (some x) d e h = e

-- The entry is the first one of exactly the map that has a file, and the first one of exactly the
-- map where none has a file.
pub best_match-find :
    (entries : List CatalogueEntry) (key : Text)
    → best_match entries key
      ≡ or_else (find (λ e. is_exact key e && has_file e) entries) (find (is_exact key) entries)
unfolding best_match
best_match-find entries key =
    let exact = filter (is_exact key) entries in
    first-position (position has_file exact) exact
    ∙ or_else-position exact (position has_file exact) (find has_file exact)
        (find (λ x. true) exact) (find-position has_file exact) (is_some-position has_file exact)
    ∙ ap (λ f. or_else f (find (λ x. true) exact)) (find-filter (is_exact key) has_file entries)
    ∙ ap (or_else (find (λ e. is_exact key e && has_file e) entries))
        (find-filter (is_exact key) (λ x. true) entries ∙ find-and_true (is_exact key) entries)
  where
    find-and_true :
        (p : CatalogueEntry → Bool) (xs : List CatalogueEntry)
        → find (λ x. p x && true) xs ≡ find p xs
    find-and_true p [] = refl
    find-and_true p (x ∷ xs) = ground (arith, find-and_true p xs)
