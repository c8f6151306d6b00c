-- ===== src/Installed.antt =====
-- crates/reveille-app/src/catalogue/record.rs and catalogue/mod.rs: the record of the packages that
-- were installed, and their removal. A path is the list of its components, as `Path` compares it;
-- the disk is the files that the process can open, and the record what its file parses to.
pub mod Recorded
pub mod Removed
pub mod Listed
use reveille.Prelude.{
  ℕ, Bool, true, false, not, ◌&&◌, ◌||◌, List, [], ◌∷◌, ◌++◌, Option, none, some, filter, find, any,
  reverse, unwrap_or, if◌then◌else◌, ◌==◌, Result, ok, err, ok_or, ◌>>=◌, map_or,
}
use reveille.Text.{Text, Bytes, text_eq, eq_ignore_ascii_case, is_some}
use reveille.Content.Browse.{CatalogueKind}

-- `std::path::Component`
pub data Component : Type 0 where
  prefix : Text → Component
  root_dir cur_dir parent_dir : Component
  normal : Text → Component

abbrev pub component_eq : Component → Component → Bool
component_eq (prefix x) (prefix y) = text_eq x y
component_eq root_dir root_dir = true
component_eq cur_dir cur_dir = true
component_eq parent_dir parent_dir = true
component_eq (normal x) (normal y) = text_eq x y
component_eq _ _ = false

abbrev pub FilePath : Type 0
FilePath = List Component

unfoldable pub path_eq : FilePath → FilePath → Bool
path_eq [] [] = true
path_eq [] (y ∷ ys) = false
path_eq (x ∷ xs) [] = false
path_eq (x ∷ xs) (y ∷ ys) = component_eq x y && path_eq xs ys

-- The parent, from the components in reverse.
abbrev parent_from : FilePath → Option FilePath
parent_from [] = none
parent_from (prefix x ∷ rest) = none
parent_from (root_dir ∷ rest) = none
parent_from (c ∷ rest) = some (reverse rest)

abbrev pub parent : FilePath → Option FilePath
parent path = parent_from (reverse path)

abbrev name_from : FilePath → Option Text
name_from (normal name ∷ rest) = some name
name_from _ = none

abbrev pub file_name : FilePath → Option Text
file_name path = name_from (reverse path)

abbrev pub Disk : Type 0
Disk = List (FilePath × Bytes)

unfoldable pub read_file : Disk → FilePath → Option Bytes
read_file [] path = none
read_file ((p, bytes) ∷ rest) path =
    let later = read_file rest path in if path_eq p path then some bytes else later

abbrev pub is_file : Disk → FilePath → Bool
is_file disk path = is_some (read_file disk path)

unfoldable pub delete_file : FilePath → Disk → Disk
delete_file path disk = filter (λ f. not (path_eq f.0 path)) disk

pub record InstalledItem : Type 0 where
  pub id : ℕ
  pub kind : CatalogueKind
  pub title : Text
  pub page_url : Option Text
  pub filename : Text
  pub path : FilePath
  pub sha256 : Text
  pub size : ℕ
  pub installed_at : ℕ

-- The record's file, or none where it is missing or cannot be read.
abbrev pub RecordFile : Type 0
RecordFile = Option (List InstalledItem)

abbrev pub items : RecordFile → List InstalledItem
items record_file = unwrap_or record_file []

-- `InstallRecord::write`: whether the file could be replaced, and the record afterwards.
abbrev write : Bool → List InstalledItem → RecordFile → Bool × RecordFile
write false list record_file = (false, record_file)
write true list record_file = (true, some list)

unfoldable pub without_path : FilePath → List InstalledItem → List InstalledItem
without_path path list = filter (λ known. not (path_eq known.path path)) list

-- `InstallRecord::add`
unfoldable pub add : Bool → InstalledItem → RecordFile → Bool × RecordFile
unfolding without_path
add can_write item record_file =
    write can_write (without_path item.path (items record_file) ++ (item ∷ [])) record_file

-- `InstallRecord::remove`
unfoldable pub remove : Bool → FilePath → RecordFile → Bool × RecordFile
unfolding without_path
remove can_write path record_file =
    write can_write (without_path path (items record_file)) record_file

-- `InstallRecord::installed`
unfoldable pub installed : Disk → List InstalledItem → ℕ → Option InstalledItem
installed disk list id = find (λ item. item.id == id && is_file disk item.path) (reverse list)

-- `InstallRecord::installed_file`
unfoldable pub installed_file : Disk → List InstalledItem → Text → Option InstalledItem
installed_file disk list filename =
    find (λ item. eq_ignore_ascii_case item.filename filename && is_file disk item.path)
      (reverse list)

-- `is_recorded`
unfoldable pub is_recorded : Disk → List InstalledItem → ℕ → Text → Bool
unfolding installed installed_file
is_recorded disk list id filename =
    is_some (installed disk list id) || is_some (installed_file disk list filename)

-- `in_search_path`
abbrev pub in_search_path : FilePath → List FilePath → Bool
in_search_path path search_path =
    map_or (parent path) false (λ directory. any (λ d. path_eq d directory) search_path)

abbrev pub is_removable : Disk → List FilePath → Text → InstalledItem → Bool
is_removable disk search_path filename item =
    eq_ignore_ascii_case item.filename filename
    && in_search_path item.path search_path
    && is_file disk item.path

-- `removable`
unfoldable pub removable : Disk → List InstalledItem → Text → List FilePath → Option InstalledItem
removable disk list filename search_path =
    find (is_removable disk search_path filename) (reverse list)

pub data RemovalError : Type 0 where
  record_unavailable folder_unavailable not_installed unreadable changed not_deleted : RemovalError

abbrev pub is_named : InstalledItem → Bool
is_named item = map_or (file_name item.path) false (λ name. eq_ignore_ascii_case name item.filename)

-- The SHA-256 of bytes in lowercase hexadecimal, and whether files can be deleted and the record
-- be written.
module _ (sha256 : Bytes → Text) (can_delete can_write : Bool) where
  -- `sha256_file`
  abbrev pub sha256_file : Disk → FilePath → Result RemovalError Text
  sha256_file disk path = do bytes ← ok_or (read_file disk path) unreadable; ok (sha256 bytes)

  -- The test before the deletion, which reads the file only if it has the name that was recorded.
  abbrev pub compare_hash : Bool → Result RemovalError Text → Text → Result RemovalError Unit
  compare_hash false hash recorded = err changed
  compare_hash true hash recorded = hash >>= λ h. if text_eq h recorded then ok tt else err changed

  abbrev pub check_unchanged : Disk → InstalledItem → Result RemovalError Unit
  check_unchanged disk item = compare_hash (is_named item) (sha256_file disk item.path) item.sha256

  abbrev pub deleted : Bool → Disk → FilePath → Result RemovalError Unit × Disk
  deleted false disk path = (err not_deleted, disk)
  deleted true disk path = (ok tt, delete_file path disk)

  abbrev pub after_check :
      Result RemovalError Unit → Disk → FilePath → Result RemovalError Unit × Disk
  after_check (err e) disk path = (err e, disk)
  after_check (ok u) disk path = deleted can_delete disk path

  -- `remove_package`
  unfoldable pub remove_package : Disk → InstalledItem → Result RemovalError Unit × Disk
  unfolding read_file delete_file
  remove_package disk item = after_check (check_unchanged disk item) disk item.path

  -- The outcome with the disk and the record that are left.
  pub record Removal : Type 0 where
    pub outcome : Result RemovalError Text
    pub disk : Disk
    pub record_file : RecordFile

  abbrev refuse : RemovalError → Disk → RecordFile → Removal
  refuse e disk record_file = record { outcome = err e; disk = disk; record_file = record_file }

  -- A record that cannot be written does not make the removal fail.
  abbrev pub forget : InstalledItem → RecordFile → Result RemovalError Unit × Disk → Removal
  forget item record_file (err e, disk) = refuse e disk record_file
  forget item record_file (ok u, disk) = record {
    outcome = ok item.filename;
    disk = disk;
    record_file = (remove can_write item.path record_file).1;
  }

  abbrev pub remove_found : Option InstalledItem → Disk → RecordFile → Removal
  remove_found none disk record_file = refuse not_installed disk record_file
  remove_found (some item) disk record_file = forget item record_file (remove_package disk item)

  -- `remove_installed_item`: the record is none where the application has no data directory, the
  -- search path where the session has none.
  unfoldable pub remove_installed_item :
      Bool → Option (List FilePath) → Text → Disk → RecordFile → Removal
  unfolding remove removable remove_package
  remove_installed_item false search_path filename disk record_file =
      refuse record_unavailable disk record_file
  remove_installed_item true none filename disk record_file =
      refuse folder_unavailable disk record_file
  remove_installed_item true (some search_path) filename disk record_file =
      remove_found (removable disk (items record_file) filename search_path) disk record_file
