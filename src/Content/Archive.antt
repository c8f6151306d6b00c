-- ===== src/Content/Archive.antt =====
-- crates/reveille-core/src/content/archive.rs: the inspection of a downloaded package and the
-- confirmation of the map it was fetched for.
pub mod Paths
pub mod Confirmed
pub mod Install
use reveille.Prelude.{
  ℕ, ◌+◌, Bool, true, false, not, ◌&&◌, ◌||◌, List, [], ◌∷◌, ◌++◌, Option, none, some, ◌==◌,
  if◌then◌else◌, within, any, filter, find, head?, map, Result, ok, err, ◌>>=◌, ◌>>◌, ok_or, suc,
}
use reveille.Text.{
  Text, Bytes, codes, text_eq, is_empty, is_some, starts_with, ends_with, strip_prefix,
  contains_char, to_ascii_lowercase, to_ascii_uppercase, utf8_width, trim_end_by,
}
use reveille.Text.Split.{split}
use reveille.Text.Number.{ℤ, ℤ_eq}
use reveille.Bsp.{BspHeader, BspError, read_header}
use reveille.MapIndex.{slashed, extension, extension_is, map_key}

pub record ArchiveMap : Type 0 where
  pub entry : Text
  pub key : Text
  pub checksum : ℤ

pub record ConfirmedMap : Type 0 where
  pub wanted : Text
  pub archive_map : ArchiveMap
  pub checksum_confirmed : Bool

-- The errors that a package's own content gives. `invalid_zip` stands for any error of the reader.
pub data ArchiveError : Type 0 where
  unsafe_filename : (filename : Text) → ArchiveError
  open_failed invalid_zip : ArchiveError
  invalid_entry_path : (entry : Text) → ArchiveError
  forbidden_entry : (entry : Text) → ArchiveError
  bsp_error : (entry : Text) → BspError → ArchiveError
  invalid_wanted_map : (name : Text) → ArchiveError
  wanted_map_missing : (name : Text) → ArchiveError
  checksum_mismatch : (name : Text) → (expected : ℤ) → (found : List ℤ) → ArchiveError
  no_archive_matched_checksum : (name : Text) → (expected : ℤ) → ArchiveError
  already_exists : (filename : Text) → ArchiveError
  install_failed : ArchiveError

-- The second byte is a colon. It is the second character, since no byte of a wider one is a colon.
abbrev pub windows_absolute : Text → Bool
windows_absolute (drive ∷ colon ∷ rest) = utf8_width drive == 1 && colon == b':'
windows_absolute _ = false

abbrev pub is_parent : Text → Bool
is_parent component = text_eq component (codes "..")

abbrev pub leaves_root : Text → Bool
leaves_root path =
    starts_with (codes "/") path || windows_absolute path || any is_parent (split b'/' path)

-- `validate_entry_path`
unfoldable pub validate_entry_path : Text → Result ArchiveError Unit
validate_entry_path entry =
    if leaves_root (slashed entry) then err (invalid_entry_path entry) else ok tt

abbrev pub device_number : Text → Option Text
device_number name = elim (strip_prefix (codes "COM") name) [
  | none ↦ strip_prefix (codes "LPT") name
  | some number ↦ some number
]

abbrev pub is_device_digit : Option Text → Bool
is_device_digit (some (c ∷ [])) = within b'1' b'9' c
is_device_digit _ = false

abbrev pub is_reserved_name : Text → Bool
is_reserved_name name =
    text_eq name (codes "CON")
    || text_eq name (codes "PRN")
    || text_eq name (codes "AUX")
    || text_eq name (codes "NUL")
    || is_device_digit (device_number name)

abbrev pub first_part : List Text → Text
first_part [] = []
first_part (part ∷ rest) = part

abbrev pub is_space_or_dot : ℕ → Bool
is_space_or_dot c = c == b' ' || c == b'.'

abbrev pub reserved_device : Text → Bool
reserved_device filename =
    is_reserved_name
      (to_ascii_uppercase (trim_end_by is_space_or_dot (first_part (split b'.' filename))))

abbrev pub is_unsafe_filename : Text → Bool
is_unsafe_filename filename =
    is_empty filename
    || contains_char b'/' filename
    || contains_char b'\\' filename
    || contains_char b':' filename
    || text_eq filename (codes ".")
    || text_eq filename (codes "..")
    || (ends_with (codes ".") filename || ends_with (codes " ") filename)
    || reserved_device filename
    || not (ends_with (codes ".pk3") (to_ascii_lowercase filename))

-- `validate_package_filename`
unfoldable pub validate_package_filename : Text → Result ArchiveError Unit
validate_package_filename filename =
    if is_unsafe_filename filename then err (unsafe_filename filename) else ok tt

-- What the ZIP reader gives for an entry: its name, whether it is a directory and its bytes, or an
-- error.
pub data ArchiveEntry : Type 0 where
  archive_entry : (name : Text) → (is_dir : Bool) → (bytes : Bytes) → ArchiveEntry
  unreadable : ArchiveEntry

abbrev pub is_program : Option Text → Bool
is_program e = extension_is (codes "exe") e || extension_is (codes "dll") e

abbrev pub is_map_entry : Text → Bool
is_map_entry path =
    starts_with (codes "maps/") (to_ascii_lowercase path)
    && extension_is (codes "bsp") (extension path)

abbrev pub map_of :
    Text → Option Text → Result BspError BspHeader → Result ArchiveError (Option ArchiveMap)
map_of name none header = err (invalid_entry_path name)
map_of name (some key) (err e) = err (bsp_error name e)
map_of name (some key) (ok header) =
    ok (some (record { entry = name; key = key; checksum = header.checksum }))

-- One round of the loop of `inspect_archive`, once the path is valid: the map found, if any.
abbrev pub inspect_file : Text → Bytes → Result ArchiveError (Option ArchiveMap)
inspect_file name bytes =
    if is_program (extension (slashed name))
    then err (forbidden_entry name)
    else if not (is_map_entry (slashed name))
    then ok none
    else map_of name (map_key (slashed name)) (read_header bytes)

unfoldable pub inspect_entry : ArchiveEntry → Result ArchiveError (Option ArchiveMap)
unfolding validate_entry_path
inspect_entry unreadable = err invalid_zip
inspect_entry (archive_entry name is_dir bytes) =
    validate_entry_path name >> (if is_dir then ok none else inspect_file name bytes)

abbrev pub push_map : Option ArchiveMap → List ArchiveMap → List ArchiveMap
push_map none maps = maps
push_map (some m) maps = m ∷ maps

unfoldable pub inspect_entries : List ArchiveEntry → Result ArchiveError (List ArchiveMap)
unfolding inspect_entry
inspect_entries [] = ok []
inspect_entries (entry ∷ rest) =
    let later = inspect_entries rest in
    inspect_entry entry >>= λ found. later >>= λ maps. ok (push_map found maps)

-- `inspect_archive`: none is a file that does not open as an archive.
unfoldable pub inspect_archive : Option (List ArchiveEntry) → Result ArchiveError (List ArchiveMap)
unfolding inspect_entries
inspect_archive none = err open_failed
inspect_archive (some entries) = inspect_entries entries

abbrev pub has_checksum : ℤ → ArchiveMap → Bool
has_checksum checksum m = ℤ_eq m.checksum checksum

abbrev pub selected : Text → List ArchiveMap → Option ℤ → Result ArchiveError ArchiveMap
selected wanted matching (some checksum) =
    ok_or (find (has_checksum checksum) matching)
      (checksum_mismatch wanted checksum (map (λ m. m.checksum) matching))
selected wanted matching none = ok_or (head? matching) (wanted_map_missing wanted)

-- The maps under the wanted key, and the choice among them.
abbrev pub confirm_key : List ArchiveMap → Text → Option ℤ → Text → Result ArchiveError ConfirmedMap
confirm_key maps wanted published key =
    let matching = filter (λ m. text_eq m.key key) maps in
    if is_empty matching
    then err (wanted_map_missing wanted)
    else (selected wanted matching published >>= λ m.
        ok (record { wanted = wanted; archive_map = m; checksum_confirmed = is_some published }))

unfoldable pub confirm_map : List ArchiveMap → Text → Option ℤ → Result ArchiveError ConfirmedMap
confirm_map maps wanted published =
    ok_or (map_key wanted) (invalid_wanted_map wanted) >>= confirm_key maps wanted published

-- The confirmed map of an archive with its index, or the search of the rest.
abbrev pub confirmed_or :
    ℕ
    → Result ArchiveError ConfirmedMap
    → Result ArchiveError (ℕ × ConfirmedMap)
    → Result ArchiveError (ℕ × ConfirmedMap)
confirmed_or index (ok confirmed) rest = ok (index, confirmed)
confirmed_or index (err e) rest = rest

unfoldable pub disambiguate_from :
    ℕ → List (List ArchiveMap) → Text → ℤ → Result ArchiveError (ℕ × ConfirmedMap)
unfolding confirm_map
disambiguate_from index [] wanted published = err (no_archive_matched_checksum wanted published)
disambiguate_from index (inspection ∷ rest) wanted published =
    confirmed_or index (confirm_map inspection wanted (some published))
      (disambiguate_from (suc index) rest wanted published)

-- `disambiguate_by_checksum`
unfoldable pub disambiguate_by_checksum :
    List (List ArchiveMap) → Text → ℤ → Result ArchiveError (ℕ × ConfirmedMap)
unfolding disambiguate_from
disambiguate_by_checksum = disambiguate_from 0
