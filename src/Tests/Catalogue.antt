-- ===== src/Tests/Catalogue.antt =====
-- Runs of the catalogue's pages, of downloads and of manifests, and their theorems at concrete
-- inputs.
use reveille.Prelude.{
  ℕ, zero, suc, ◌≡◌, refl, ap, List, [], ◌∷◌, Option, none, some, Result, ok, err, OnSome, OnOk,
  length, arith, inl,
}
use reveille.Text.{Text, Bytes, codes}
use reveille.Content.Archive.Install.{Folder}
use reveille.Content.Browse.Entry.{UrlCrate, MohDbFile, BrowseMapWire, map_into_entry}
use reveille.Content.Browse.Offered.{OffersMap, map_into_entry-OffersMap}
use reveille.Content.Download.{
  MohDbError, PageWire, CataloguePage, MapWire, Response, Disk, Downloaded, lookup, download,
  fetched, page_content,
}
use reveille.Retry.{run, run_loop}
use reveille.Content.Download.Pages.{AreFilled, lookup-Answers, lookup-none}
use reveille.Content.Download.Staged.{Leaves, download-Leaves}
use reveille.Content.PakRadar.{PakRadarError, PakRadarEntry}
use reveille.Content.PakRadar.Digest.{AreDigestBytes}
use reveille.Content.PakRadar.Manifest.{parse_filelist}
use reveille.Content.PakRadar.Written.{manifest_text, parse_filelist-written}
use reveille.Content.PakRadar.Package.{
  HttpUrl, Listing, listed, not_found, entry_status, download_package,
}
use reveille.Content.PakRadar.Package as Package
use reveille.Content.PakRadar.Verified as Verified
use reveille.Content.PakRadar.Verified.{download_package-Leaves}
use reveille.Content.PakRadar.Effective.{Tells, entry_status-Tells}

abbrev markup : Text
markup = codes "<p>Snow</p>and &lt;ice&gt;<br"

-- A reader that knows one URL, on one of the catalogue's hosts and over `http`.
abbrev urls : UrlCrate
urls = record {
  parse = λ text. some (record {
    scheme = codes "http";
    host = some (codes "Storage.moh-db.com");
    text = text;
    secured = some (codes "https://storage.moh-db.com/a.jpg");
  });
  join_base = λ text. none;
}

abbrev references : Option (List Text)
references = some (codes "http://Storage.moh-db.com/a.jpg" ∷ codes "b.jpg" ∷ [])

abbrev map_wire : BrowseMapWire
map_wire = record {
  nid = 7;
  vid = 4291;
  title = some (codes "Snipervalley");
  map_name = some (codes "dm/snipervalley");
  map_creator = none;
  map_description = some markup;
  maps_theme = none;
  feature_modes = none;
  map_size = none;
  map_file_tested = some (codes "yes");
  downloads = some 12;
  images = references;
  added = none;
  rating = none;
  map_file = some (record {
    filename = some (codes "user-snipervalley.pk3");
    filesize = some 3;
    download_link = some (codes "https://x/y.pk3");
  });
  download_link = none;
}

map_into_entry-OffersMap_example : OnSome (OffersMap) (map_into_entry urls map_wire)
map_into_entry-OffersMap_example = map_into_entry-OffersMap urls map_wire

abbrev file : MohDbFile
file = record {
  filename = codes "user-snipervalley.pk3";
  file_size = 3;
  download_url = codes "https://x/y.pk3";
}

abbrev working_disk : ℕ → Disk
working_disk n = record {
  create_dir = none;
  new_file = none;
  write = λ k. none;
  flush = none;
  rename = none;
}

-- The first attempt brings a body that is cut short, the second the whole.
abbrev answers : ℕ → Result MohDbError Response
answers zero = ok (record { code = 200; declared = some 3; chunks = (1 ∷ []) ∷ []; broken = none })
answers (suc n) =
    ok (record {
      code = 200;
      declared = some 3;
      chunks = (1 ∷ []) ∷ (2 ∷ 3 ∷ []) ∷ [];
      broken = none;
    })

abbrev no_hash : Bytes → Bytes
no_hash bytes = bytes

abbrev staging : Folder
staging = (codes "other.pk3", 9 ∷ []) ∷ []

download-Leaves_example :
    (left : Result MohDbError Downloaded × Folder) × (download no_hash working_disk answers
        (1 ∷ 3 ∷ [])
        file
        staging
      ≡ some left)
    × Leaves file staging left
download-Leaves_example = download-Leaves file staging no_hash working_disk answers (1 ∷ 3 ∷ [])

abbrev record_wire : MapWire
record_wire = record {
  nid = 7;
  map_name = codes "dm/snipervalley";
  map_file_tested = none;
  downloads = none;
  map_file = none;
  download_link = none;
}

abbrev one_page : ℕ → ℕ → Result MohDbError PageWire
one_page number attempt = ok (record { content = record_wire ∷ []; total_elements = 2 })

abbrev announced : Result MohDbError PageWire → ℕ
announced (err e) = 0
announced (ok page) = page.total_elements

one_page-AreFilled : AreFilled one_page [] 2
unfolding run run_loop
one_page-AreFilled number page h = (
  inl (omega (arith, ap (λ r. length (page_content one_page [] r)) h)),
  omega (arith, ap announced h),
)

lookup-Answers_example :
    (answer : Result MohDbError CataloguePage) × (lookup one_page [] 3 ≡ some answer)
lookup-Answers_example = lookup-Answers one_page [] 2 one_page-AreFilled

abbrev empty_page : ℕ → ℕ → Result MohDbError PageWire
empty_page number attempt = ok (record { content = []; total_elements = 1 })

empty_page-fetched :
    (number : ℕ) → fetched empty_page [] number ≡ ok (record { content = []; total_elements = 1 })
unfolding run run_loop
empty_page-fetched number = refl

lookup-none_example : lookup empty_page [] 1000 ≡ none
lookup-none_example = lookup-none empty_page [] empty_page-fetched 1000

abbrev digest : Bytes
digest = 0 ∷ 1 ∷ 2 ∷ 3 ∷ 4 ∷ 5 ∷ 6 ∷ 7 ∷ 8 ∷ 9 ∷ 250 ∷ 251 ∷ 252 ∷ 253 ∷ 254 ∷ 255 ∷ []

digest-AreDigestBytes : AreDigestBytes digest
digest-AreDigestBytes = ground arith

abbrev published : PakRadarEntry
published = record { alias = codes "a \"b\""; md5 = digest; url = codes "http://x/y/pack.pk3" }

parse_filelist-written_example :
    parse_filelist (manifest_text (published ∷ [])) ≡ ok (published ∷ [])
parse_filelist-written_example =
    parse_filelist-written (published ∷ []) ((digest-AreDigestBytes, refl), tt) ((refl, refl), tt)

abbrev parse_url : Text → Option HttpUrl
parse_url text =
    some (record { scheme = codes "http"; segments = some (codes "y" ∷ codes "pack.pk3" ∷ []) })

abbrev package_disk : ℕ → Package.Disk
package_disk n = record { create_dir = none; new_file = none; write = none; rename = none }

abbrev package_answers : ℕ → Result PakRadarError Package.Response
package_answers n = ok (record { code = 200; declared = none; chunks = digest ∷ []; broken = none })

download_package-Leaves_example :
    (left : Result PakRadarError Package.Downloaded × Folder) × (download_package parse_url no_hash
        package_disk package_answers [] published staging
      ≡ some left)
    × Verified.Leaves parse_url no_hash published staging left
download_package-Leaves_example =
    download_package-Leaves parse_url no_hash published staging package_disk package_answers []

-- The directory with the highest precedence has the published in another case.
abbrev directories : List Listing
directories =
    listed ((codes "pack.pk3", ok (1 ∷ [])) ∷ [])
    ∷ not_found
    ∷ listed ((codes "PACK.pk3", ok digest) ∷ [])
    ∷ []

entry_status-Tells_example :
    OnOk
      (Tells parse_url no_hash published directories)
      (entry_status parse_url no_hash published directories)
entry_status-Tells_example = entry_status-Tells parse_url no_hash published directories
