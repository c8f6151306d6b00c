-- ===== src/Content/Browse.antt =====
-- Browsing the catalogue page by page, of crates/reveille-core/src/content/catalogue.rs: the query
-- of a page, and what its texts become.
pub mod Plain
pub mod Entry
pub mod Slug
pub mod Offered
use reveille.Prelude.{
  ℕ, ◌+◌, Bool, not, ◌&&◌, ◌||◌, List, [], ◌∷◌, ◌++◌, Option, none, some, if◌then◌else◌, head?,
  and_then, ◌==◌,
}
use reveille.Text.{
  Text, codes, is_empty, is_ascii_alphanumeric, lower, to_ascii_lowercase, trim, trim_end_by,
  text_eq, ends_with, contains_char,
}
use reveille.Text.Split.{split}
use reveille.Text.Number.{to_text}
use reveille.Discovery.Model.{TargetGame, allied_assault, spearhead, breakthrough}

abbrev pub browse_page_size : ℕ
browse_page_size = 48

pub data CatalogueKind : Type 0 where
  map_kind mod_kind : CatalogueKind

-- `MAPS_ENDPOINT` and `MODS_ENDPOINT`
abbrev pub endpoint : CatalogueKind → Text
endpoint map_kind = codes "https://api.moh-db.com/api/external/v1/maps"
endpoint mod_kind = codes "https://api.moh-db.com/api/external/v1/mods"

pub data MapMode : Type 0 where
  deathmatch objective liberation : MapMode

abbrev pub prefix : MapMode → Text
prefix deathmatch = codes "dm/"
prefix objective = codes "obj/"
prefix liberation = codes "lib/"

abbrev pub game_type : TargetGame → Text
game_type allied_assault = codes "MOHAA"
game_type spearhead = codes "MOHSH"
game_type breakthrough = codes "MOHBT"

pub data CatalogueSort : Type 0 where
  popular newest by_name : CatalogueSort

-- `CatalogueSort::parameter`
abbrev pub parameter : CatalogueSort → CatalogueKind → Text
parameter popular kind = codes "downloads,desc"
parameter newest kind = codes "nid,desc"
parameter by_name map_kind = codes "mapName,asc"
parameter by_name mod_kind = codes "modName,asc"

pub record CatalogueQuery : Type 0 where
  pub kind : CatalogueKind
  pub search : Text
  pub sort : CatalogueSort
  pub page : ℕ
  pub mode : Option MapMode
  pub game : Option TargetGame

abbrev pub mode_parameter : Option MapMode → List (Text × Text)
mode_parameter none = []
mode_parameter (some mode) = (codes "mapName", prefix mode) ∷ []

abbrev pub game_parameter : Option TargetGame → List (Text × Text)
game_parameter none = []
game_parameter (some game) = (codes "gameType", game_type game) ∷ []

abbrev pub title_parameter : Text → List (Text × Text)
title_parameter search = if is_empty search then [] else (codes "title", search) ∷ []

-- The parameters behind the first three; `search` is trimmed.
abbrev pub filters : CatalogueKind → Text → CatalogueQuery → List (Text × Text)
filters map_kind search query =
    if contains_char b'/' search || contains_char b'\\' search
    then (codes "mapName", search) ∷ []
    else title_parameter search ++ mode_parameter query.mode
filters mod_kind search query = title_parameter search ++ game_parameter query.game

-- `CatalogueQuery::parameters`
unfoldable pub parameters : CatalogueQuery → List (Text × Text)
parameters query =
    (codes "size", to_text browse_page_size)
    ∷ (codes "page", to_text query.page)
    ∷ (codes "sort", parameter query.sort query.kind)
    ∷ filters query.kind (trim query.search) query

-- `SITE_MAPS` and `SITE_MODS`
abbrev pub site : CatalogueKind → Text
site map_kind = codes "https://www.moh-db.com/maps/"
site mod_kind = codes "https://www.moh-db.com/mods/"

-- One character of a title, behind the slug so far.
unfoldable pub push_slug : Text → ℕ → Text
push_slug slug c =
    if is_ascii_alphanumeric c
    then slug ++ (lower c ∷ [])
    else if not (ends_with (codes "-") slug) && not (is_empty slug)
    then slug ++ (b'-' ∷ [])
    else slug

unfoldable pub push_title : Text → Text → Text
unfolding push_slug
push_title slug [] = slug
push_title slug (c ∷ title) = push_title (push_slug slug c) title

-- The slug of a title.
unfoldable pub slug_of : Text → Text
unfolding push_title
slug_of title = trim_end_by (λ c. c == b'-') (push_title [] (trim title))

abbrev pub dashed : Text → Text
dashed slug = if is_empty slug then [] else b'-' ∷ slug

unfoldable pub page_url : CatalogueKind → ℕ → Text → Text
unfolding slug_of
page_url kind vid title = site kind ++ (to_text vid ++ dashed (slug_of title))

abbrev pub raster_of : Text → Option Text
raster_of essence =
    if text_eq essence (codes "image/jpeg") || text_eq essence (codes "image/jpg")
    then some (codes "image/jpeg")
    else if text_eq essence (codes "image/png")
    then some (codes "image/png")
    else if text_eq essence (codes "image/webp")
    then some (codes "image/webp")
    else if text_eq essence (codes "image/gif")
    then some (codes "image/gif")
    else none

-- `raster_type`
unfoldable pub raster_type : Text → Option Text
raster_type content_type =
    and_then (head? (split b';' content_type))
      (λ first. raster_of (to_ascii_lowercase (trim first)))
