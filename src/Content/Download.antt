-- ===== src/Content/Download.antt =====
-- The catalogue's client of crates/reveille-core/src/content/mohdb.rs: the lookup of a term over
-- all its pages, and the download of one file into staging. The HTTP client, the disk and SHA-256
-- are parameters.
pub mod Pages
pub mod Staged
use reveille.Prelude.{
  ℕ, zero, suc, ◌+◌, ◌*◌, ◌/◌, ◌%◌, Bool, true, false, not, ◌||◌, ◌&&◌, List, [], ◌∷◌, ◌++◌, Option,
  none, some, if◌then◌else◌, ltb, leb, ◌==◌, length, filter_map, within, Result, ok, err, ◌>>=◌,
  ◌>>◌, unwrap_or, or_else, opt_filter, opt_map, and_then, map, get_or,
}
use reveille.Text.{Text, Bytes, codes, is_some, is_empty, trim}
use reveille.Text.Number.{u64_max}
use reveille.Retry.{run, transient_status, wait_before_retry, attempts}
use reveille.MapIndex.{map_key}
use reveille.Content.Archive.{ArchiveError, validate_package_filename}
use reveille.Content.Archive.Install.{Folder, exists_file, persist}
use reveille.Content.Catalogue.{
  CatalogueCandidate, CatalogueNonResultReason, timeout, http_status, network, malformed,
}
use reveille.Content.Browse.Entry.{MohDbFile, valid_filename}

-- An error of the HTTP client or of the disk is the text that it displays.
pub data MohDbError : Type 0 where
  client_failed : Text → MohDbError
  timed_out : MohDbError
  network_failed : Text → MohDbError
  status : ℕ → MohDbError
  malformed_reply : Text → MohDbError
  not_an_image : MohDbError
  image_too_large : MohDbError
  archive : ArchiveError → MohDbError
  size_overflow : MohDbError
  size_mismatch : (published actual : ℕ) → MohDbError
  staging : Text → MohDbError

-- `MohDbError::is_transient`
unfoldable pub is_transient : MohDbError → Bool
is_transient timed_out = true
is_transient (network_failed message) = true
is_transient (status code) = transient_status code
is_transient (size_mismatch published actual) = ltb actual published
is_transient _ = false

-- `CatalogueNonResultReason::from`; `displayed` is the `Display` of the other errors.
abbrev pub non_result_reason : (MohDbError → Text) → MohDbError → CatalogueNonResultReason
non_result_reason displayed timed_out = timeout
non_result_reason displayed (status code) = http_status code
non_result_reason displayed (malformed_reply message) = malformed message
non_result_reason displayed (client_failed message) = network message
non_result_reason displayed (network_failed message) = network message
non_result_reason displayed other = malformed (displayed other)

pub record FileWire : Type 0 where
  pub filename : Text
  pub filesize : ℕ
  pub download_link : Option Text

pub record MapWire : Type 0 where
  pub nid : ℕ
  pub map_name : Text
  pub map_file_tested : Option Text
  pub downloads : Option ℕ
  pub map_file : Option FileWire
  pub download_link : Option Text

-- `CatalogueCandidate::from_wire`
unfoldable pub from_wire : MapWire → Option CatalogueCandidate
from_wire wire = and_then (map_key wire.map_name) (λ key. and_then wire.map_file (λ file.
    and_then (valid_filename file.filename (validate_package_filename file.filename)) (λ filename.
      opt_map
        (λ url. record {
          id = wire.nid;
          map_name = wire.map_name;
          map_key = key;
          filename = filename;
          file_size = file.filesize;
          map_file_tested =
              is_some (opt_filter (λ value. not (is_empty (trim value))) wire.map_file_tested);
          downloads = unwrap_or wire.downloads 0;
          download_url = url;
        })
        (or_else wire.download_link file.download_link))))

pub record PageWire : Type 0 where
  pub content : List MapWire
  pub total_elements : ℕ

pub record CataloguePage : Type 0 where
  pub content : List CatalogueCandidate
  pub total_elements : ℕ

-- `attempt == 0`'s answer where a policy makes no attempt, which none does.
abbrev pub final_answer : {A : Type 0} → Option (Result MohDbError A × ℕ) → Result MohDbError A
final_answer none = err timed_out
final_answer (some (answer, made)) = answer

-- What the request for a page answers, at each attempt.
module _ (pages : ℕ → ℕ → Result MohDbError PageWire) (delays : List ℕ) where
  abbrev pub fetched : ℕ → Result MohDbError PageWire
  fetched number = final_answer (run is_transient (pages number) delays)

  abbrev pub page_content : Result MohDbError PageWire → List MapWire
  page_content (err e) = []
  page_content (ok page) = page.content

  -- What follows a page: the end of the loop or the rest of it.
  abbrev pub after_page :
      List CatalogueCandidate
      → ℕ
      → Result MohDbError PageWire
      → Option (Result MohDbError CataloguePage)
      → Option (Result MohDbError CataloguePage)
  after_page records seen (err e) rest = some (err e)
  after_page records seen (ok page) rest =
      if leb page.total_elements seen || page.total_elements == 0
      then some (ok (record { content = records; total_elements = page.total_elements }))
      else rest

  -- The loop of `lookup_from` over the pages, on fuel, with the candidates and the number of the
  -- records seen so far.
  unfoldable pub lookup_loop :
      ℕ → ℕ → List CatalogueCandidate → ℕ → Option (Result MohDbError CataloguePage)
  unfolding from_wire
  lookup_loop zero number records seen = none
  lookup_loop (suc fuel) number records seen =
      let page = fetched number in
      let more = page_content page in
      let records' = records ++ filter_map from_wire more in
      let rest = lookup_loop fuel (number + 1) records' (seen + length more) in
      after_page records' (seen + length more) page rest

  -- `lookup`
  unfoldable pub lookup : ℕ → Option (Result MohDbError CataloguePage)
  unfolding lookup_loop
  lookup fuel = lookup_loop fuel 0 [] 0

-- `DownloadProgress`
pub record DownloadProgress : Type 0 where
  pub received : ℕ
  pub declared : Option ℕ

-- A response: the chunks of its body, and the error that ends them, if any.
pub record Response : Type 0 where
  pub code : ℕ
  pub declared : Option ℕ
  pub chunks : List Bytes
  pub broken : Option MohDbError

-- The disk's answers to the calls of one download; the number is that of the chunk written.
pub record Disk : Type 0 where
  pub create_dir : Option Text
  pub new_file : Option Text
  pub write : ℕ → Option Text
  pub flush : Option Text
  pub rename : Option Text

abbrev pub staged : Option Text → Result MohDbError Unit
staged none = ok tt
staged (some message) = err (staging message)

abbrev pub unbroken : Option MohDbError → Result MohDbError Unit
unbroken none = ok tt
unbroken (some e) = err e

abbrev pub safe_name : Result ArchiveError Unit → Result MohDbError Unit
safe_name (ok u) = ok u
safe_name (err e) = err (archive e)

-- The error of a call on the disk, or what follows the call. What a `let` binds is made only there.
abbrev pub if_staged : {A : Type 0} → Option Text → (MohDbError → A) → A → A
if_staged none failure next = next
if_staged (some message) failure next = failure (staging message)

-- The body so far and what was reported of it. A failure keeps the reports.
pub record Received : Type 0 where
  pub bytes : Bytes
  pub count : ℕ
  pub reports : List DownloadProgress

-- The loop over the chunks.
module _ (disk : Disk) (declared : Option ℕ) where
  abbrev pub add_chunk : Received → Bytes → Received
  add_chunk r chunk = record {
    bytes = r.bytes ++ chunk;
    count = r.count + length chunk;
    reports = r.reports ++ (record { received = r.count + length chunk; declared = declared } ∷ []);
  }

  unfoldable pub receive :
      ℕ
      → Received
      → List Bytes
      → Option MohDbError
      → Result MohDbError Received × List DownloadProgress
  receive number r [] none = (ok r, r.reports)
  receive number r [] (some e) = (err e, r.reports)
  receive number r (chunk ∷ chunks) broken =
      let rest = receive (number + 1) (add_chunk r chunk) chunks broken in
      let checked =
        (if leb (r.count + length chunk) u64_max then rest else (err size_overflow, r.reports)) in
      if_staged (disk.write number) (λ e. (err e, r.reports)) checked

abbrev pub is_success : ℕ → Bool
is_success code = within 200 299 code

abbrev pub empty_body : Option ℕ → Received
empty_body declared = record {
  bytes = [];
  count = 0;
  reports = record { received = 0; declared = declared } ∷ [];
}

-- The guards before the body, in the order of the code.
abbrev pub opened : Disk → MohDbFile → Result MohDbError Response → Result MohDbError Response
opened disk file answer = do
  valid ← safe_name (validate_package_filename file.filename)
  directory ← staged disk.create_dir
  response ← answer
  success ← if is_success response.code then ok tt else err (status response.code)
  temporary ← staged disk.new_file
  ok response

-- `DownloadedArchive` with its recorded digest.
pub record Downloaded : Type 0 where
  pub filename : Text
  pub bytes : Bytes
  pub recorded_sha256 : Text

abbrev pub hex_digit : ℕ → ℕ
hex_digit n = get_or (codes "0123456789abcdef") n 0

-- `hex_lower`
unfoldable pub hex_lower : Bytes → Text
hex_lower [] = []
hex_lower (b ∷ bytes) = hex_digit (b / 16) ∷ hex_digit (b % 16) ∷ hex_lower bytes

module _ (sha256 : Bytes → Bytes) where
  abbrev pub downloaded : MohDbFile → Received → Downloaded
  downloaded file r = record {
    filename = file.filename;
    bytes = r.bytes;
    recorded_sha256 = hex_lower (sha256 r.bytes);
  }

  -- `persist_noclobber`: the temporary file is renamed unless its name is taken.
  abbrev pub place : Disk → MohDbFile → Folder → Received → Result MohDbError Downloaded × Folder
  place disk file folder r =
      if exists_file folder file.filename
      then (err (staging (codes "file exists")), folder)
      else if_staged disk.rename (λ e. (err e, folder))
          (ok (downloaded file r), persist folder file.filename r.bytes)

  -- What follows the body: the flush, the check of the size, and the rename.
  abbrev pub after_body :
      Disk → MohDbFile → Folder → Result MohDbError Received → Result MohDbError Downloaded × Folder
  after_body disk file folder (err e) = (err e, folder)
  after_body disk file folder (ok r) =
      if_staged disk.flush (λ e. (err e, folder))
        (if r.count == file.file_size
          then place disk file folder r
          else (err (size_mismatch file.file_size r.count), folder))

  abbrev pub after_open :
      Disk
      → MohDbFile
      → Folder
      → Result MohDbError Response
      → Result MohDbError Downloaded × Folder × List DownloadProgress
  after_open disk file folder (err e) = (err e, folder, [])
  after_open disk file folder (ok response) =
      let body =
        receive disk response.declared 0 (empty_body response.declared) response.chunks
          response.broken in
      let done = after_body disk file folder body.0 in (done.0, done.1, body.1)

  -- `download_mohdb_file_once`: the result, the staging directory, and the reports.
  unfoldable pub download_once :
      Disk
      → MohDbFile
      → Folder
      → Result MohDbError Response
      → Result MohDbError Downloaded × Folder × List DownloadProgress
  unfolding receive
  download_once disk file folder answer = after_open disk file folder (opened disk file answer)

  -- The loop of `download_mohdb_file_reporting` on fuel: the network and the disk at each attempt.
  module _ (disks : ℕ → Disk) (answers : ℕ → Result MohDbError Response) (delays : List ℕ) where
    abbrev pub after_attempt :
        ℕ
        → Result MohDbError Downloaded × Folder × List DownloadProgress
        → Option (Result MohDbError Downloaded × Folder)
        → Option (Result MohDbError Downloaded × Folder)
    after_attempt number (ok file, folder, reports) rest = some (ok file, folder)
    after_attempt number (err e, folder, reports) rest =
        if wait_before_retry delays number (is_transient e) then rest else some (err e, folder)

    unfoldable pub download_loop :
        MohDbFile → ℕ → ℕ → Folder → Option (Result MohDbError Downloaded × Folder)
    unfolding download_once
    download_loop file zero number folder = none
    download_loop file (suc fuel) number folder =
        let once = download_once (disks number) file folder (answers number) in
        let rest = download_loop file fuel (number + 1) once.1 in after_attempt number once rest

    unfoldable pub download : MohDbFile → Folder → Option (Result MohDbError Downloaded × Folder)
    unfolding download_loop
    download file folder = download_loop file (attempts delays) 0 folder
