-- ===== src/Content/PakRadar/Package.antt =====
-- One package of a manifest: its download, and the state of the copy that the engine would load,
-- of crates/reveille-core/src/content/pakradar.rs.
use reveille.Prelude.{
  ℕ, zero, suc, ◌+◌, Bool, not, ◌||◌, List, [], ◌∷◌, ◌++◌, Option, none, some, if◌then◌else◌,
  within, reverse, get_last?, Result, ok, err, ok_or, ◌>>=◌, opt_filter, and_then,
}
use reveille.Text.{Text, Bytes, codes, is_empty, text_eq, eq_ignore_ascii_case}
use reveille.Retry.{wait_before_retry, attempts}
use reveille.Content.Archive.{ArchiveError, validate_package_filename}
use reveille.Content.Archive.Install.{Folder, exists_file, persist}
use reveille.Content.PakRadar.{
  PakRadarError, unsafe_url, http_status, digest_mismatch, bad_name, staging_failed, local_package,
  PakRadarEntry, is_transient, show_md5,
}

-- What the crate tells of a URL: its scheme and the segments of its path.
pub record HttpUrl : Type 0 where
  pub scheme : Text
  pub segments : Option (List Text)

abbrev pub safe_package : Text → Result ArchiveError Unit → Result PakRadarError Text
safe_package filename (ok u) = ok filename
safe_package filename (err e) = err (bad_name e)

module _ (parse_url : Text → Option HttpUrl) where
  abbrev pub is_http : HttpUrl → Bool
  is_http url = text_eq url.scheme (codes "http") || text_eq url.scheme (codes "https")

  -- `validate_http_url`
  unfoldable pub validate_http_url : Text → Result PakRadarError HttpUrl
  validate_http_url url = ok_or (opt_filter is_http (parse_url url)) (unsafe_url url)

  -- `package_filename`, and `PakRadarEntry::filename`
  unfoldable pub package_filename : Text → Result PakRadarError Text
  unfolding validate_http_url
  package_filename url = do
    parsed ← validate_http_url url
    filename ←
        ok_or (opt_filter (λ name. not (is_empty name)) (and_then parsed.segments get_last?))
          (unsafe_url url)
    safe_package filename (validate_package_filename filename)

-- A response: the chunks of its body, and the error that ends them, if any.
pub record Response : Type 0 where
  pub code : ℕ
  pub declared : Option ℕ
  pub chunks : List Bytes
  pub broken : Option PakRadarError

-- The disk's answers to the calls of one download.
pub record Disk : Type 0 where
  pub create_dir : Option Text
  pub new_file : Option Text
  pub write : Option Text
  pub rename : Option Text

abbrev pub staged : Option Text → Result PakRadarError Unit
staged none = ok tt
staged (some message) = err (staging_failed message)

abbrev pub unbroken : Option PakRadarError → Bytes → Result PakRadarError Bytes
unbroken none bytes = ok bytes
unbroken (some e) bytes = err e

-- The bytes of the body.
unfoldable pub body_bytes : List Bytes → Bytes
body_bytes [] = []
body_bytes (chunk ∷ chunks) = chunk ++ body_bytes chunks

pub record Downloaded : Type 0 where
  pub filename : Text
  pub bytes : Bytes
  pub verified_md5 : Text

abbrev pub checked_status : Response → Result PakRadarError Response
checked_status response =
    if within 200 299 response.code then ok response else err (http_status response.code)

abbrev pub free_name : Folder → Text → Result PakRadarError Unit
free_name folder filename =
    if exists_file folder filename then err (staging_failed (codes "file exists")) else ok tt

module _ (parse_url : Text → Option HttpUrl) (md5 : Bytes → Bytes) where
  abbrev pub checked_digest : PakRadarEntry → Bytes → Result PakRadarError Bytes
  checked_digest entry bytes =
      if text_eq (md5 bytes) entry.md5
      then ok bytes
      else err (digest_mismatch entry.md5 (md5 bytes))

  -- `download_pakradar_archive_once` up to the rename: the bytes are checked before anything is
  -- written.
  unfoldable pub download_checked :
      Disk
      → PakRadarEntry
      → Folder
      → Result PakRadarError Response
      → Result PakRadarError Downloaded
  unfolding package_filename body_bytes
  download_checked disk entry folder answer = do
    filename ← package_filename parse_url entry.url
    response ← answer
    success ← checked_status response
    body ← unbroken response.broken (body_bytes response.chunks)
    bytes ← checked_digest entry body
    directory ← staged disk.create_dir
    temporary ← staged disk.new_file
    written ← staged disk.write
    free ← free_name folder filename
    renamed ← staged disk.rename
    ok (record { filename = filename; bytes = bytes; verified_md5 = show_md5 entry.md5 })

  -- The staging directory after the rename, or as it was.
  abbrev pub folder_after : Folder → Result PakRadarError Downloaded → Folder
  folder_after folder (err e) = folder
  folder_after folder (ok d) = persist folder d.filename d.bytes

  -- The loop of `download_pakradar_archive_retrying` on fuel.
  module _ (disks : ℕ → Disk) (answers : ℕ → Result PakRadarError Response) (delays : List ℕ) where
    abbrev pub after_attempt :
        ℕ
        → Result PakRadarError Downloaded
        → Folder
        → Option (Result PakRadarError Downloaded × Folder)
        → Option (Result PakRadarError Downloaded × Folder)
    after_attempt number (ok d) folder rest = some (ok d, folder)
    after_attempt number (err e) folder rest =
        if wait_before_retry delays number (is_transient e) then rest else some (err e, folder)

    unfoldable pub download_loop :
        PakRadarEntry → ℕ → ℕ → Folder → Option (Result PakRadarError Downloaded × Folder)
    unfolding download_checked
    download_loop entry zero number folder = none
    download_loop entry (suc fuel) number folder =
        let answer = download_checked (disks number) entry folder (answers number) in
        let left = folder_after folder answer in
        let rest = download_loop entry fuel (number + 1) left in
        after_attempt number answer left rest

    unfoldable pub download_package :
        PakRadarEntry → Folder → Option (Result PakRadarError Downloaded × Folder)
    unfolding download_loop
    download_package entry folder = download_loop entry (attempts delays) 0 folder

-- What a search directory gives: it is not there, it cannot be listed, or its files, each a name
-- and what reading it gives.
pub data Listing : Type 0 where
  not_found : Listing
  unreadable : Text → Listing
  listed : List (Text × Result Text Bytes) → Listing

-- `PakRadarPackageStatus`; a path is the place of the directory among those searched, and the name.
pub data PakRadarPackageStatus : Type 0 where
  missing : PakRadarPackageStatus
  current : ℕ × Text → PakRadarPackageStatus
  outdated : ℕ × Text → PakRadarPackageStatus

-- The first file of a directory by this name, whatever its case.
unfoldable pub named_file :
    Text → List (Text × Result Text Bytes) → Option (Text × Result Text Bytes)
named_file filename [] = none
named_file filename ((name, content) ∷ rest) =
    let later = named_file filename rest in
    if eq_ignore_ascii_case name filename then some (name, content) else later

abbrev pub Found : Type 0
Found = Result PakRadarError (Option (ℕ × Text × Result Text Bytes))

abbrev pub found_in : ℕ → Option (Text × Result Text Bytes) → Found → Found
found_in place none later = later
found_in place (some (name, content)) later = ok (some (place, name, content))

abbrev pub search_listing : Text → ℕ → Listing → Found → Found
search_listing filename place not_found later = later
search_listing filename place (unreadable message) later = err (local_package message)
search_listing filename place (listed files) later =
    found_in place (named_file filename files) later

-- `effective_package_path`: the directories with their places, the highest precedence first.
unfoldable pub search_from : Text → List (ℕ × Listing) → Found
unfolding named_file
search_from filename [] = ok none
search_from filename ((place, listing) ∷ rest) =
    search_listing filename place listing (search_from filename rest)

abbrev pub numbered : ℕ → List Listing → List (ℕ × Listing)
numbered n [] = []
numbered n (l ∷ rest) = (n, l) ∷ numbered (n + 1) rest

unfoldable pub effective_package : Text → List Listing → Found
unfolding search_from
effective_package filename directories = search_from filename (reverse (numbered 0 directories))

module _ (parse_url : Text → Option HttpUrl) (md5 : Bytes → Bytes) where
  abbrev pub status_of_bytes :
      PakRadarEntry → ℕ → Text → Result Text Bytes → Result PakRadarError PakRadarPackageStatus
  status_of_bytes entry place name (err message) = err (local_package message)
  status_of_bytes entry place name (ok bytes) =
      if text_eq (md5 bytes) entry.md5
      then ok (current (place, name))
      else ok (outdated (place, name))

  abbrev pub status_of_found :
      PakRadarEntry
      → Option (ℕ × Text × Result Text Bytes)
      → Result PakRadarError PakRadarPackageStatus
  status_of_found entry none = ok missing
  status_of_found entry (some (place, name, content)) = status_of_bytes entry place name content

  -- `pakradar_entry_status`
  unfoldable pub entry_status :
      PakRadarEntry → List Listing → Result PakRadarError PakRadarPackageStatus
  unfolding package_filename effective_package
  entry_status entry directories = do
    filename ← package_filename parse_url entry.url
    found ← effective_package filename directories
    status_of_found entry found
