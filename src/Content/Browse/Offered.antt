-- ===== src/Content/Browse/Offered.antt =====
-- What the catalogue's entries offer to install and to fetch.
use mathlib.Core.List.{Mem}
use reveille.Prelude.{
  ◌≢◌, if◌then◌else◌, false, ◌≡◌, refl, true, List, Option, none, some, OnSome, Result, ok, err,
  or_else, and_then, opt_filter, sym, OnSome-and_then, OnSome-opt_map, OnSome-any, ◌==◌, ◌⊎◌, ◌||◌,
}
use reveille.Text.{
  Text, ends_with, codes, trim_start_by, is_empty, trim, starts_with, to_ascii_lowercase,
}
use reveille.MapIndex.{map_key}
use reveille.Content.Archive.{ArchiveError, validate_package_filename}
use reveille.Content.Catalogue.{CatalogueCandidate}
use reveille.Content.Browse.Entry.{
  Url, UrlCrate, MohDbFile, CatalogueEntry, BrowseFileWire, valid_filename, into_package,
  BrowseMapWire, candidate_of, offered_file, map_package, map_entry, map_into_entry, not_blank,
  plain,
}

-- A package that the archive's checks accept by its name.
abbrev pub HasSafeName : MohDbFile → Type 0
HasSafeName file = validate_package_filename file.filename ≡ ok tt

-- The candidate of a map is the file offered, under the key of the entry.
abbrev pub Agrees : CatalogueEntry → Option MohDbFile → Option CatalogueCandidate → Type 0
Agrees entry none candidate = candidate ≡ none
Agrees entry (some file) none = ⊥
Agrees entry (some file) (some c) =
    (c.id ≡ entry.id)
    × (some c.map_key ≡ entry.map_key)
    × (c.filename ≡ file.filename)
    × (c.file_size ≡ file.file_size)
    × (c.download_url ≡ file.download_url)

valid_filename-ok :
    (name : Text) (r : Result ArchiveError Unit)
    → validate_package_filename name ≡ r
    → OnSome (λ filename. validate_package_filename filename ≡ ok tt) (valid_filename name r)
valid_filename-ok name (ok checked) h = h
valid_filename-ok name (err e) h = tt

into_package-HasSafeName :
    (wire : BrowseFileWire) (link : Option Text) → OnSome HasSafeName (into_package wire link)
unfolding into_package
into_package-HasSafeName wire link =
    OnSome-and_then (λ n. Unit) HasSafeName wire.filename _ (OnSome-any wire.filename)
      (λ name n.
        OnSome-and_then (λ f. validate_package_filename f ≡ ok tt) HasSafeName
          (valid_filename name (validate_package_filename name)) _
          (valid_filename-ok name (validate_package_filename name) refl)
          (λ filename valid.
            OnSome-and_then (λ n. Unit) HasSafeName wire.filesize _ (OnSome-any wire.filesize)
              (λ size s.
                OnSome-opt_map (λ n. Unit) HasSafeName _ (or_else link wire.download_link)
                  (OnSome-any (or_else link wire.download_link)) (λ url u. valid))))

-- What an entry offers: a package only under a safe name, and a map's only with the candidate that
-- installation confirms it against.
pub record OffersMap (entry : CatalogueEntry) : Type 0 where
  pub safe : OnSome HasSafeName entry.file
  pub agrees : Agrees entry entry.file entry.candidate

module _ (urls : UrlCrate) (wire : BrowseMapWire) where
  offered_file-HasSafeName :
      (name key : Option Text) (file : Option MohDbFile)
      → OnSome HasSafeName file
      → OnSome HasSafeName (offered_file (candidate_of wire name key file) file)
  offered_file-HasSafeName name none file h = tt
  offered_file-HasSafeName name (some key) none h = tt
  offered_file-HasSafeName name (some key) (some file) h = h

  candidate_of-Agrees :
      (entry : CatalogueEntry) (name key : Option Text) (file : Option MohDbFile)
      → entry.id ≡ wire.nid
      → entry.map_key ≡ key
      → Agrees entry
          (offered_file (candidate_of wire name key file) file)
          (candidate_of wire name key file)
  candidate_of-Agrees entry name none file i k = refl
  candidate_of-Agrees entry name (some key) none i k = refl
  candidate_of-Agrees entry name (some key) (some file) i k = (sym i, sym k, refl, refl, refl)

  map_entry-OffersMap :
      (name : Option Text) (title : Text) (file : Option MohDbFile)
      → OnSome HasSafeName file
      → OffersMap (map_entry urls wire name file title)
  map_entry-OffersMap name title file h = record {
    safe = offered_file-HasSafeName name (and_then name map_key) file h;
    agrees =
        candidate_of-Agrees (map_entry urls wire name file title) name (and_then name map_key) file
          refl refl;
  }

  -- Whatever record of a map the catalogue returns, its entry offers a file to install only under
  -- a name that the archive's checks accept, and exactly where it has a candidate: the candidate
  -- has the entry's identifier and map key, and the file's name, size and address.
  pub map_into_entry-OffersMap : OnSome OffersMap (map_into_entry urls wire)
  unfolding map_into_entry
  map_into_entry-OffersMap =
      let name = opt_filter not_blank wire.map_name in
      let titles = or_else (plain wire.title) name in
      OnSome-opt_map (λ t. Unit) OffersMap _ titles (OnSome-any titles)
        (λ title t. map_entry-OffersMap name title (map_package wire) (
          OnSome-and_then (λ f. Unit) HasSafeName wire.map_file _ (OnSome-any wire.map_file)
            (λ file f. into_package-HasSafeName file wire.download_link)))

-- The catalogue's own host in any case, or one below it.
abbrev pub IsCatalogueHost : Text → Type 0
IsCatalogueHost host =
    (to_ascii_lowercase host ≡ codes "moh-db.com")
    ⊎ (ends_with (codes ".moh-db.com") (to_ascii_lowercase host) ≡ true)

-- A URL with a host of the catalogue, whose text is shown, with the scheme `https` for `http`.
pub record IsTrusted (address : Text) (url : Url) : Type 0 where
  pub host : Text
  pub hosted : url.host ≡ some host
  pub on_catalogue : IsCatalogueHost host
  pub written :
      ((url.scheme ≢ codes "http") × (address ≡ url.text))
      ⊎ ((url.scheme ≡ codes "http") × (url.secured ≡ some address))

-- The URL that a reference stands for: itself if it is a web address, and otherwise what it is
-- under the catalogue's storage.
abbrev pub resolved : UrlCrate → Text → Option Url
resolved urls reference =
    if starts_with (codes "https://") (trim reference)
      || starts_with (codes "http://") (trim reference)
    then urls.parse (trim reference)
    else urls.join_base (trim_start_by (λ c. c == b'/') (trim reference))

-- An address that is shown for a reference which is not blank.
pub record ShowsImage (urls : UrlCrate) (reference address : Text) : Type 0 where
  pub url : Url
  pub written : is_empty (trim reference) ≡ false
  pub from : resolved urls reference ≡ some url
  pub trusted : IsTrusted address url

-- One of the references is shown by the address.
abbrev pub IsImage : UrlCrate → List Text → Text → Type 0
IsImage urls references address =
    (reference : Text) × Mem reference references × ShowsImage urls reference address
