-- ===== src/MapIndex/Scan.antt =====
-- The scan. What the file system and the ZIP reader return is the input: a directory is its
-- entries, a package its members, each with the bytes that are read of it.
use reveille.Prelude.{
  ℕ, Bool, true, false, ◌&&◌, List, [], ◌∷◌, ◌++◌, Option, none, some, Result, ok, err,
  if◌then◌else◌, length, filter,
}
use reveille.Text.{Text, Bytes, codes, to_ascii_lowercase}
use reveille.Text.Number.{ℤ}
use reveille.TreeMap.{insert, lookup, text_ltb}
use reveille.Bsp.{BspHeader, BspError, Ident, read_header}
use reveille.MapIndex.Key.{normalized_bsp_path, extension, extension_is}

pub data Provider : Type 0 where
  pk3 : (archive entry : Text) → Ident → (version checksum : ℤ) → Provider
  pk3_dir : (directory entry : Text) → Ident → (version checksum : ℤ) → Provider
  loose : (path entry : Text) → Ident → (version checksum : ℤ) → Provider

-- `Provider::checksum`
abbrev pub checksum_of : Provider → ℤ
checksum_of (pk3 archive entry ident version checksum) = checksum
checksum_of (pk3_dir directory entry ident version checksum) = checksum
checksum_of (loose path entry ident version checksum) = checksum

-- `Map`
pub record GameMap : Type 0 where
  pub name : Text
  pub display_name : Text
  pub providers : List Provider

-- `effective_provider`
abbrev pub effective_provider : GameMap → Option Provider
effective_provider m = elim m.providers [ [] ↦ none | p ∷ ps ↦ some p ]

pub record ScanStats : Type 0 where
  pub archives : ℕ
  pub package_directories : ℕ
  pub loose_bsp_files : ℕ
  pub maps : ℕ
  pub multi_provider_maps : ℕ
  pub skipped_entries : ℕ
  pub skipped_packages : ℕ

pub data SkippedReason : Type 0 where
  unreadable_header : SkippedReason
  unsupported_version : ℤ → SkippedReason

pub record SkippedEntry : Type 0 where
  pub source_path : Text
  pub entry : Text
  pub reason : SkippedReason

-- `From<bsp::Error>`; the message of an I/O error is not modelled.
abbrev pub reason_of : BspError → SkippedReason
reason_of BspError.read_failed = unreadable_header
reason_of (BspError.unsupported_version v) = unsupported_version v

pub record MapIndex : Type 0 where
  pub maps : List (Text × GameMap)
  pub skipped : List SkippedEntry
  pub skipped_packages : List Text
  pub stats : ScanStats

abbrev pub empty_stats : ScanStats
empty_stats = record {
  archives = 0;
  package_directories = 0;
  loose_bsp_files = 0;
  maps = 0;
  multi_provider_maps = 0;
  skipped_entries = 0;
  skipped_packages = 0;
}

abbrev pub empty_index : MapIndex
empty_index = record { maps = []; skipped = []; skipped_packages = []; stats = empty_stats }

-- The map that an insertion leaves: the display name is the newest, the provider goes last.
abbrev pub extended : Text → Text → Provider → Option GameMap → GameMap
extended name display provider none = record {
  name = name;
  display_name = display;
  providers = provider ∷ [];
}
extended name display provider (some m) = record m {
  display_name = display;
  providers = m.providers ++ provider ∷ [];
}

-- `insert`
unfoldable pub insert_provider : Text → Text → Provider → MapIndex → MapIndex
insert_provider name display provider index = record index {
  maps = insert name (extended name display provider (lookup name index.maps)) index.maps;
}

-- `skip`
abbrev pub skip : Text → Text → SkippedReason → MapIndex → MapIndex
skip source entry reason index = record index {
  skipped = index.skipped ++ record { source_path = source; entry = entry; reason = reason } ∷ [];
}

-- One BSP-looking entry, with what its header reads as: it is inserted or skipped.
abbrev pub add_entry :
    (Text → BspHeader → Provider)
    → Text
    → Text
    → Option (Text × Text)
    → Result BspError BspHeader
    → MapIndex
    → MapIndex
add_entry provider source original none header index = index
add_entry provider source original (some (name, display)) (ok header) index =
    insert_provider name display (provider original header) index
add_entry provider source original (some (name, display)) (err e) index =
    skip source original (reason_of e) index

-- A member of a ZIP archive: `by_index` and `name` succeed and the header's bytes are read, or not.
pub data ZipEntry : Type 0 where
  member : (name : Text) → (bytes : Bytes) → ZipEntry
  damaged : ZipEntry

abbrev pub pk3_provider : Text → Text → BspHeader → Provider
pk3_provider archive entry header = pk3 archive entry header.ident header.version header.checksum

-- The loop of `scan_pk3`. Entries before a damaged one stay in the index; the flag tells whether
-- the archive was read to its end.
unfoldable pub scan_members : Text → List ZipEntry → MapIndex → MapIndex × Bool
scan_members path [] index = (index, true)
scan_members path (damaged ∷ rest) index = (index, false)
scan_members path (member name bytes ∷ rest) index =
    scan_members path rest
      (add_entry (pk3_provider path) path name (normalized_bsp_path name) (read_header bytes) index)

-- What `File::open` and `ZipArchive::new` give.
unfoldable pub scan_pk3 : Text → Option (List ZipEntry) → MapIndex → MapIndex × Bool
unfolding scan_members
scan_pk3 path none index = (index, false)
scan_pk3 path (some members) index = scan_members path members index

-- An entry of a walked tree: its full path; its path from the provider's root, with slashes; whether
-- it is a file; and its bytes, if it opens.
pub record TreeFile : Type 0 where
  pub full_path : Text
  pub path : Text
  pub is_file : Bool
  pub contents : Option Bytes

-- `File::open`, and the header read from it.
abbrev pub tree_header : Option Bytes → Result BspError BspHeader
tree_header none = err BspError.read_failed
tree_header (some bytes) = read_header bytes

abbrev pub is_candidate : TreeFile → Bool
is_candidate f = f.is_file && extension_is (codes "bsp") (extension f.path)

-- A stable sort of the entries by a key.
unfoldable pub insert_by {ℓ} : {A : Type ℓ} → (A → A → Bool) → A → List A → List A
insert_by before x [] = x ∷ []
insert_by before x (y ∷ ys) =
    let later = y ∷ insert_by before x ys in if before y x then later else x ∷ y ∷ ys

unfoldable pub sort_by {ℓ} : {A : Type ℓ} → (A → A → Bool) → List A → List A
unfolding insert_by
sort_by before [] = []
sort_by before (x ∷ xs) = insert_by before x (sort_by before xs)

abbrev pub by_lower_path : TreeFile → TreeFile → Bool
by_lower_path a b = text_ltb (to_ascii_lowercase a.full_path) (to_ascii_lowercase b.full_path)

-- The loop of `scan_tree` over the sorted files.
unfoldable pub scan_files :
    (TreeFile → Text → BspHeader → Provider) → List TreeFile → MapIndex → MapIndex
scan_files provider [] index = index
scan_files provider (f ∷ rest) index = scan_files provider rest (
    if is_candidate f
    then add_entry (provider f) f.full_path f.path (normalized_bsp_path f.path)
        (tree_header f.contents) index
    else index)

-- `scan_tree`: the index and the number of candidates. The walk has given the entries.
unfoldable pub scan_tree :
    (TreeFile → Text → BspHeader → Provider) → List TreeFile → MapIndex → MapIndex × ℕ
unfolding scan_files sort_by
scan_tree provider files index =
    (scan_files provider (sort_by by_lower_path files) index, length (filter is_candidate files))
