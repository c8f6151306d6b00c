-- ===== src/Content/Archive/Install.antt =====
-- crates/reveille-core/src/content/archive.rs: putting a package into a game directory. A directory
-- is the list of its files, each a name and its bytes; that every call on the file system succeeds
-- is a parameter, and only the last of them, the rename, changes a package.
pub mod Effects
use reveille.Prelude.{
  ℕ, Bool, true, false, List, [], ◌∷◌, ◌++◌, Option, none, some, if◌then◌else◌, ◌||◌, Result, ok,
  err, ◌>>=◌, ◌>>◌,
}
use reveille.Text.{Text, Bytes, text_eq, eq_ignore_ascii_case}
use reveille.Content.Archive.{
  ArchiveError, ArchiveEntry, already_exists, install_failed, inspect_archive,
  validate_package_filename,
}

abbrev pub Folder : Type 0
Folder = List (Text × Bytes)

-- `DownloadedArchive`: the staged file's entries, as the ZIP reader gives them, and its bytes.
pub record DownloadedArchive : Type 0 where
  pub entries : Option (List ArchiveEntry)
  pub filename : Text
  pub bytes : Bytes

-- `existing_package_path`
unfoldable pub existing_package : Folder → Text → Option Text
existing_package [] filename = none
existing_package ((name, bytes) ∷ rest) filename =
    let later = existing_package rest filename in
    if eq_ignore_ascii_case name filename then some name else later

abbrev pub target_of : Option Text → Text → Text
target_of none filename = filename
target_of (some name) filename = name

abbrev pub exists_file : Folder → Text → Bool
exists_file [] target = false
exists_file ((name, bytes) ∷ rest) target = text_eq name target || exists_file rest target

-- The rename onto a name replaces the file that has it.
unfoldable pub persist : Folder → Text → Bytes → Folder
persist [] target bytes = (target, bytes) ∷ []
persist ((name, old) ∷ rest) target bytes =
    let later = persist rest target bytes in
    if text_eq name target then (name, bytes) ∷ rest else (name, old) ∷ later

abbrev pub checked_archive : DownloadedArchive → Result ArchiveError Unit
checked_archive archive =
    inspect_archive archive.entries >>= λ maps. validate_package_filename archive.filename

-- The result with the folder that is left.
abbrev pub install_into :
    Bool → Folder → DownloadedArchive → Text → Result ArchiveError Text × Folder
install_into false folder archive target = (err install_failed, folder)
install_into true folder archive target = (ok target, persist folder target archive.bytes)

abbrev pub after_check :
    Result ArchiveError Unit
    → Folder
    → Result ArchiveError Text × Folder
    → Result ArchiveError Text × Folder
after_check (err e) folder rest = (err e, folder)
after_check (ok u) folder rest = rest

-- `install_archive`
unfoldable pub install_archive :
    Bool → Folder → DownloadedArchive → Result ArchiveError Text × Folder
unfolding persist existing_package
install_archive file_system_ok folder archive =
    let target = target_of (existing_package folder archive.filename) archive.filename in
    after_check (checked_archive archive) folder (
      if exists_file folder target
      then (err (already_exists target), folder)
      else install_into file_system_ok folder archive target)

-- `install_verified_archive`
unfoldable pub install_verified_archive :
    Bool → Folder → DownloadedArchive → Result ArchiveError Text × Folder
unfolding persist existing_package
install_verified_archive file_system_ok folder archive =
    after_check (checked_archive archive) folder (
      install_into file_system_ok folder archive
        (target_of (existing_package folder archive.filename) archive.filename))
