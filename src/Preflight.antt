-- ===== src/Preflight.antt =====
-- crates/reveille-core/src/preflight.rs: a server's rotation against the local maps.
pub mod Counts
pub mod Coverage
pub mod Present
use reveille.Prelude.{
  ℕ, ◌+◌, Bool, true, false, not, ◌&&◌, ◌||◌, List, [], ◌∷◌, Option, none, some, if◌then◌else◌, any,
  map, ◌==◌, length,
}
use reveille.Text.{Text, text_eq}
use reveille.Text.Number.{ℤ, ℤ_eq}
use reveille.MapIndex.{
  map_key, GameMap, Provider, checksum_of, effective_provider, MapIndex, index_get,
}

-- A checksum published for the server's current map.
pub record PublishedChecksum : Type 0 where
  pub map : Text
  pub checksum : ℤ

pub data MapStatus : Type 0 where
  present : (checksum : ℤ) → (checksum_checked : Bool) → MapStatus
  checksum_differs : (local server : ℤ) → MapStatus
  absent : MapStatus

pub record MapResult : Type 0 where
  pub map : Text
  pub status : MapStatus

pub data Verdict : Type 0 where
  compatible : Verdict
  problems_found : (absent checksum_mismatches : ℕ) → Verdict

pub record Report : Type 0 where
  pub verdict : Verdict
  pub maps : List MapResult

-- Equality of `Option<MapKey>`.
abbrev pub same_key : Option Text → Option Text → Bool
same_key none none = true
same_key (some a) (some b) = text_eq a b
same_key _ _ = false

-- `seen.contains`
abbrev pub seen_key : Text → List Text → Bool
seen_key key = any (λ k. text_eq k key)

-- The test of the `filter` and the set after it: a name with no key passes, another if
-- `seen.insert(key)` finds its key new.
abbrev pub is_new : Option Text → List Text → Bool
is_new none seen = true
is_new (some key) seen = not (seen_key key seen)

abbrev pub now_seen : Option Text → List Text → List Text
now_seen none seen = seen
now_seen (some key) seen = key ∷ seen

-- The `filter` over the rotation, with the keys seen so far.
unfoldable pub distinct : List Text → List Text → List Text
distinct seen [] = []
distinct seen (name ∷ rest) =
    let later = distinct (now_seen (map_key name) seen) rest in
    if is_new (map_key name) seen then name ∷ later else later

-- `published_checksum.filter(…)`
abbrev pub expected_for : Option PublishedChecksum → Text → Option ℤ
expected_for none name = none
expected_for (some published) name =
    if same_key (map_key published.map) (map_key name) then some published.checksum else none

-- What the map's effective provider gives; a map without one is absent.
abbrev pub provider_status : Option Provider → Option ℤ → MapStatus
provider_status none expected = absent
provider_status (some provider) none = present (checksum_of provider) false
provider_status (some provider) (some server) =
    if ℤ_eq (checksum_of provider) server
    then present (checksum_of provider) true
    else checksum_differs (checksum_of provider) server

abbrev pub map_status : Option GameMap → Option ℤ → MapStatus
map_status none expected = absent
map_status (some m) expected = provider_status (effective_provider m) expected

unfoldable pub status_of : MapIndex → Option PublishedChecksum → Text → MapStatus
status_of index published name = map_status (index_get index name) (expected_for published name)

-- The two counters after a result.
abbrev pub count_absent : MapStatus → ℕ → ℕ
count_absent absent n = n + 1
count_absent _ n = n

abbrev pub count_mismatch : MapStatus → ℕ → ℕ
count_mismatch (checksum_differs local server) n = n + 1
count_mismatch _ n = n

-- What the loop over the distinct names carries.
pub record Checked : Type 0 where
  pub absent : ℕ
  pub mismatches : ℕ
  pub maps : List MapResult

unfoldable pub check_maps : MapIndex → Option PublishedChecksum → List Text → ℕ → ℕ → Checked
check_maps index published [] absents mismatches = record {
  absent = absents;
  mismatches = mismatches;
  maps = [];
}
check_maps index published (name ∷ rest) absents mismatches =
    let status = status_of index published name in
    let later =
      check_maps index published rest (count_absent status absents)
        (count_mismatch status mismatches) in
    record later { maps = record { map = name; status = status } ∷ later.maps }

abbrev pub verdict_of : ℕ → ℕ → Verdict
verdict_of absents mismatches =
    if absents == 0 && mismatches == 0 then compatible else problems_found absents mismatches

unfoldable pub check : MapIndex → List Text → Option PublishedChecksum → Report
unfolding check_maps
check index rotation published =
    let checked = check_maps index published (distinct [] rotation) 0 0 in
    record { verdict = verdict_of checked.absent checked.mismatches; maps = checked.maps }
