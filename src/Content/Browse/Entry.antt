-- ===== src/Content/Browse/Entry.antt =====
-- The entries of a page of crates/reveille-core/src/content/catalogue.rs, from the records that
-- the catalogue returns. The crate that reads URLs is a parameter. A rating is an IEEE double, and
-- stands here as its 64 bits.
use reveille.Prelude.{
  ℕ, ◌+◌, ◌*◌, ◌/◌, ◌%◌, ◌^◌, min, Bool, not, ◌||◌, List, [], Option, none, some, if◌then◌else◌,
  ltb, ◌==◌, length, filter_map, Result, ok, err, unwrap_or, or_else, opt_filter, and_then, opt_map,
  map_or,
}
use reveille.Text.{
  Text, codes, is_empty, is_some, trim, trim_start_by, starts_with, ends_with, text_eq,
  to_ascii_lowercase,
}
use reveille.Text.Number.{ℤ, pos, negsuc, u64_max}
use reveille.MapIndex.{map_key}
use reveille.Content.Archive.{ArchiveError, validate_package_filename}
use reveille.Content.Catalogue.{CatalogueCandidate}
use reveille.Content.Browse.{CatalogueKind, map_kind, mod_kind, browse_page_size, page_url}
use reveille.Content.Browse.Plain.{plain_text}

-- What the crate tells of a URL: its scheme and host, its text, and its text with the scheme
-- `https`.
pub record Url : Type 0 where
  pub scheme : Text
  pub host : Option Text
  pub text : Text
  pub secured : Option Text

-- `Url::parse`, and `join` on `https://storage.moh-db.com/`.
pub record UrlCrate : Type 0 where
  pub parse : Text → Option Url
  pub join_base : Text → Option Url

-- `MohDbFile`
pub record MohDbFile : Type 0 where
  pub filename : Text
  pub file_size : ℕ
  pub download_url : Text

pub record CatalogueEntry : Type 0 where
  pub id : ℕ
  pub kind : CatalogueKind
  pub title : Text
  pub map_name : Option Text
  pub map_key : Option Text
  pub author : Option Text
  pub description : Option Text
  pub theme : Option Text
  pub modes : Option Text
  pub size_class : Option Text
  pub added : Option ℤ
  pub rating : Option ℕ
  pub downloads : ℕ
  pub image_count : ℕ
  pub page_url : Text
  pub mod_type : Option Text
  pub version : Option Text
  pub requires : Option Text
  pub install_notes : Option Text
  pub file : Option MohDbFile
  pub archive_name : Option Text
  pub candidate : Option CatalogueCandidate
  pub images : List Text

pub record BrowsePage : Type 0 where
  pub entries : List CatalogueEntry
  pub total_elements : ℕ
  pub page : ℕ
  pub has_more : Bool

pub record BrowsePageWire (R : Type 0) : Type 0 where
  pub content : List R
  pub total_elements : ℕ
  pub last : Option Bool

-- `usize::saturating_mul`
unfoldable pub saturating_mul : ℕ → ℕ → ℕ
saturating_mul a b = min (a * b) u64_max

-- `BrowsePageWire::into_page`
unfoldable pub into_page :
    {R : Type 0} → BrowsePageWire R → ℕ → (R → Option CatalogueEntry) → BrowsePage
unfolding saturating_mul
into_page wire page into_entry = record {
  entries = filter_map into_entry wire.content;
  total_elements = wire.total_elements;
  page = page;
  has_more =
      map_or wire.last
        (ltb (saturating_mul ((page + 1) % 2 ^ 64) browse_page_size) wire.total_elements) not;
}

pub record BrowseFileWire : Type 0 where
  pub filename : Option Text
  pub filesize : Option ℕ
  pub download_link : Option Text

abbrev pub valid_filename : Text → Result ArchiveError Unit → Option Text
valid_filename filename (ok checked) = some filename
valid_filename filename (err e) = none

-- `BrowseFileWire::into_package`
unfoldable pub into_package : BrowseFileWire → Option Text → Option MohDbFile
into_package wire link = and_then wire.filename (λ name.
    and_then (valid_filename name (validate_package_filename name)) (λ filename.
      and_then wire.filesize (λ size.
        opt_map (λ url. record { filename = filename; file_size = size; download_url = url })
          (or_else link wire.download_link))))

-- `rating.is_finite()` of the 64 bits of a double.
abbrev pub is_finite : ℕ → Bool
is_finite bits = not (bits / 2 ^ 52 % 2 ^ 11 == 2047)

unfoldable pub unix_seconds : ℤ → ℤ
unix_seconds (pos n) = if ltb 100_000_000_000 n then pos (n / 1000) else pos n
unix_seconds (negsuc n) = negsuc n

-- `as_deref().and_then(plain_text)`
abbrev pub plain : Option Text → Option Text
plain text = and_then text plain_text

abbrev pub not_blank : Text → Bool
not_blank text = not (is_empty (trim text))

abbrev pub secure_text : Url → Option Text
secure_text url = if text_eq url.scheme (codes "http") then url.secured else some url.text

abbrev pub is_moh_db : Text → Bool
is_moh_db host = text_eq host (codes "moh-db.com") || ends_with (codes ".moh-db.com") host

abbrev pub on_moh_db : Url → Option Text
on_moh_db url =
    and_then (opt_filter is_moh_db (opt_map to_ascii_lowercase url.host)) (λ host. secure_text url)

pub record BrowseMapWire : Type 0 where
  pub nid : ℕ
  pub vid : ℕ
  pub title : Option Text
  pub map_name : Option Text
  pub map_creator : Option Text
  pub map_description : Option Text
  pub maps_theme : Option Text
  pub feature_modes : Option Text
  pub map_size : Option Text
  pub map_file_tested : Option Text
  pub downloads : Option ℕ
  pub images : Option (List Text)
  pub added : Option ℤ
  pub rating : Option ℕ
  pub map_file : Option BrowseFileWire
  pub download_link : Option Text

pub record BrowseModWire : Type 0 where
  pub nid : ℕ
  pub vid : ℕ
  pub title : Option Text
  pub mod_name : Option Text
  pub mod_creator : Option Text
  pub short_description : Option Text
  pub mod_description : Option Text
  pub mod_install : Option Text
  pub mod_requires : Option Text
  pub mod_version : Option Text
  pub type_of_mod : Option Text
  pub downloads : Option ℕ
  pub images : Option (List Text)
  pub added : Option ℤ
  pub rating : Option ℕ
  pub file : Option BrowseFileWire
  pub download_link : Option Text
  pub pk3_file : Option BrowseFileWire
  pub pk3_download_link : Option Text

-- A map's candidate needs both a key and a file.
abbrev pub candidate_of :
    BrowseMapWire → Option Text → Option Text → Option MohDbFile → Option CatalogueCandidate
candidate_of wire map_name none file = none
candidate_of wire map_name (some key) none = none
candidate_of wire map_name (some key) (some file) = some (record {
  id = wire.nid;
  map_name = unwrap_or map_name [];
  map_key = key;
  filename = file.filename;
  file_size = file.file_size;
  map_file_tested = is_some (opt_filter not_blank wire.map_file_tested);
  downloads = unwrap_or wire.downloads 0;
  download_url = file.download_url;
})

-- `candidate.as_ref().and(file)`
abbrev pub offered_file : Option CatalogueCandidate → Option MohDbFile → Option MohDbFile
offered_file none file = none
offered_file (some candidate) file = file

abbrev pub map_package : BrowseMapWire → Option MohDbFile
map_package wire = and_then wire.map_file (λ file. into_package file wire.download_link)

abbrev pub mod_package : BrowseModWire → Option BrowseFileWire → Option MohDbFile
mod_package wire none = and_then wire.file (λ file. into_package file wire.download_link)
mod_package wire (some pk3) = into_package pk3 wire.pk3_download_link

-- `if file.is_some() { None } else { archive_name }`
abbrev pub other_archive : Option MohDbFile → Option Text → Option Text
other_archive none archive_name = archive_name
other_archive (some file) archive_name = none

module _ (urls : UrlCrate) where
  -- `image_url`
  unfoldable pub image_url : Text → Option Text
  image_url reference =
      let raw = trim reference in
      let parsed =
        (if starts_with (codes "https://") raw || starts_with (codes "http://") raw
          then urls.parse raw
          else urls.join_base (trim_start_by (λ c. c == b'/') raw)) in
      if is_empty raw then none else and_then parsed on_moh_db

  unfoldable pub screenshots : Option (List Text) → List Text
  unfolding image_url
  screenshots raw = filter_map image_url (unwrap_or raw [])

  -- The entry of a map, from its name, its title and its package.
  abbrev pub map_entry : BrowseMapWire → Option Text → Option MohDbFile → Text → CatalogueEntry
  map_entry wire map_name file title =
      let key = and_then map_name map_key in
      let candidate = candidate_of wire map_name key file in
      record {
        id = wire.nid;
        kind = map_kind;
        title = title;
        map_name = map_name;
        map_key = key;
        author = plain wire.map_creator;
        description = plain wire.map_description;
        theme = plain wire.maps_theme;
        modes = plain wire.feature_modes;
        size_class = plain wire.map_size;
        added = opt_map unix_seconds wire.added;
        rating = opt_filter is_finite wire.rating;
        downloads = unwrap_or wire.downloads 0;
        image_count = length (screenshots wire.images);
        page_url = page_url map_kind wire.vid title;
        mod_type = none;
        version = none;
        requires = none;
        install_notes = none;
        file = offered_file candidate file;
        archive_name = none;
        candidate = candidate;
        images = screenshots wire.images;
      }

  -- `BrowseMapWire::into_entry`
  unfoldable pub map_into_entry : BrowseMapWire → Option CatalogueEntry
  unfolding screenshots into_package unix_seconds
  map_into_entry wire =
      let map_name = opt_filter not_blank wire.map_name in
      opt_map (map_entry wire map_name (map_package wire)) (or_else (plain wire.title) map_name)

  -- The entry of a mod, from its title and its package.
  abbrev pub mod_entry : BrowseModWire → Option MohDbFile → Text → CatalogueEntry
  mod_entry wire file title = record {
    id = wire.nid;
    kind = mod_kind;
    title = title;
    map_name = none;
    map_key = none;
    author = plain wire.mod_creator;
    description = or_else (plain wire.short_description) (plain wire.mod_description);
    theme = none;
    modes = none;
    size_class = none;
    added = opt_map unix_seconds wire.added;
    rating = opt_filter is_finite wire.rating;
    downloads = unwrap_or wire.downloads 0;
    image_count = length (screenshots wire.images);
    page_url = page_url mod_kind wire.vid title;
    mod_type = plain wire.type_of_mod;
    version = plain wire.mod_version;
    requires = plain wire.mod_requires;
    install_notes = plain wire.mod_install;
    file = file;
    archive_name =
        other_archive file
          (opt_filter not_blank (and_then wire.file (λ archive. archive.filename)));
    candidate = none;
    images = screenshots wire.images;
  }

  -- `BrowseModWire::into_entry`
  unfoldable pub mod_into_entry : BrowseModWire → Option CatalogueEntry
  unfolding screenshots into_package unix_seconds
  mod_into_entry wire =
      opt_map (mod_entry wire (mod_package wire wire.pk3_file))
        (or_else (plain wire.title) (plain wire.mod_name))
