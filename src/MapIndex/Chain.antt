-- ===== src/MapIndex/Chain.antt =====
-- A game directory, and the chain of directories that the engine reads.
use reveille.Prelude.{
  ℕ, ◌+◌, Bool, true, false, ◌&&◌, ◌||◌, List, [], ◌∷◌, ◌++◌, Option, none, some, Result, ok, err,
  ◌>>=◌, ltb, length, filter, reverse,
}
use reveille.Text.{Text, codes, text_eq, to_ascii_lowercase, ends_with}
use reveille.TreeMap.{text_ltb, lookup}
use reveille.Bsp.{BspHeader}
use reveille.MapIndex.Key.{map_key}
use reveille.MapIndex.Scan.{
  Provider, pk3_dir, loose, GameMap, MapIndex, empty_index, ZipEntry, scan_pk3, TreeFile, sort_by,
  scan_tree,
}

-- The `maps` folder of a tree: it is not there, the walk fails, or it is walked.
pub data Tree : Type 0 where
  no_maps walk_failed : Tree
  walked : List TreeFile → Tree

-- What a directory entry is: a file, read as an archive if it is one, or a folder.
pub data Node : Type 0 where
  file : Option (List ZipEntry) → Node
  folder : Tree → Node

pub record DirEntry : Type 0 where
  pub name : Text
  pub path : Text
  pub node : Node

pub data GameDirectory : Type 0 where
  not_directory unreadable : GameDirectory
  listed : List DirEntry → Tree → GameDirectory

pub data ScanError : Type 0 where
  is_not_directory read_directory walk : ScanError

abbrev pub is_dir : Node → Bool
is_dir (file members) = false
is_dir (folder tree) = true

abbrev pub is_package : DirEntry → Bool
is_package e =
    ends_with (codes ".pk3") (to_ascii_lowercase e.name)
    || (is_dir e.node && ends_with (codes ".pk3dir") (to_ascii_lowercase e.name))

-- By the folded name, then by the name.
abbrev pub by_name : DirEntry → DirEntry → Bool
by_name a b =
    text_ltb (to_ascii_lowercase a.name) (to_ascii_lowercase b.name)
    || (text_eq (to_ascii_lowercase a.name) (to_ascii_lowercase b.name) && text_ltb a.name b.name)

abbrev pub dir_provider : Text → TreeFile → Text → BspHeader → Provider
dir_provider directory f entry header =
    pk3_dir directory entry header.ident header.version header.checksum

abbrev pub loose_provider : TreeFile → Text → BspHeader → Provider
loose_provider f entry header = loose f.full_path entry header.ident header.version header.checksum

abbrev pub count_archive : MapIndex → MapIndex
count_archive index = record index {
  stats = record index.stats { archives = index.stats.archives + 1 };
}

abbrev pub count_folder : MapIndex → MapIndex
count_folder index = record index {
  stats = record index.stats { package_directories = index.stats.package_directories + 1 };
}

abbrev pub skip_package : Text → MapIndex → MapIndex
skip_package path index = record index { skipped_packages = index.skipped_packages ++ path ∷ [] }

-- An archive that was not read to its end is recorded as skipped, on the index it left.
abbrev pub after_archive : Text → MapIndex × Bool → MapIndex
after_archive path (index, true) = count_archive index
after_archive path (index, false) = skip_package path index

-- The body of the loop over the packages.
unfoldable pub scan_package : Text → Node → MapIndex → MapIndex
scan_package path (file members) index = after_archive path (scan_pk3 path members index)
scan_package path (folder no_maps) index = count_folder index
scan_package path (folder walk_failed) index = skip_package path index
scan_package path (folder (walked files)) index =
    count_folder (scan_tree (dir_provider path) files index).0

unfoldable pub scan_packages : List DirEntry → MapIndex → MapIndex
scan_packages [] index = index
scan_packages (e ∷ rest) index = scan_packages rest (scan_package e.path e.node index)

abbrev pub count_loose : MapIndex × ℕ → MapIndex
count_loose (index, candidates) = record index {
  stats = record index.stats { loose_bsp_files = index.stats.loose_bsp_files + candidates };
}

-- `scan_loose`
unfoldable pub scan_loose : Tree → MapIndex → Result ScanError MapIndex
scan_loose no_maps index = ok index
scan_loose walk_failed index = err walk
scan_loose (walked files) index = ok (count_loose (scan_tree loose_provider files index))

abbrev pub packages_of : List DirEntry → List DirEntry
packages_of entries = sort_by by_name (filter is_package entries)

unfoldable pub scan_game_directory : GameDirectory → MapIndex → Result ScanError MapIndex
scan_game_directory not_directory index = err is_not_directory
scan_game_directory unreadable index = err read_directory
scan_game_directory (listed entries tree) index =
    scan_loose tree (scan_packages (packages_of entries) index)

-- `update_stats`: the order of addition is reversed into the order of lookup.
abbrev pub in_lookup_order : GameMap → GameMap
in_lookup_order m = record m { providers = reverse m.providers }

abbrev pub reversed_maps : List (Text × GameMap) → List (Text × GameMap)
reversed_maps [] = []
reversed_maps ((k, m) ∷ rest) = (k, in_lookup_order m) ∷ reversed_maps rest

abbrev pub is_multi : Text × GameMap → Bool
is_multi (k, m) = ltb 1 (length m.providers)

unfoldable pub update_stats : MapIndex → MapIndex
update_stats index = record index {
  maps = reversed_maps index.maps;
  stats = record index.stats {
    maps = length (reversed_maps index.maps);
    multi_provider_maps = length (filter is_multi (reversed_maps index.maps));
    skipped_entries = length index.skipped;
    skipped_packages = length index.skipped_packages;
  };
}

unfoldable pub scan_directories : List GameDirectory → MapIndex → Result ScanError MapIndex
scan_directories [] index = ok index
scan_directories (d ∷ rest) index = do
  scanned ← scan_game_directory d index
  scan_directories rest scanned

-- `scan_chain`, the lowest precedence first.
unfoldable pub scan_chain : List GameDirectory → Result ScanError MapIndex
unfolding scan_directories update_stats
scan_chain directories = do
  index ← scan_directories directories empty_index
  ok (update_stats index)

-- `MapIndex::get`
abbrev pub lookup_key : List (Text × GameMap) → Option Text → Option GameMap
lookup_key maps none = none
lookup_key maps (some key) = lookup key maps

unfoldable pub index_get : MapIndex → Text → Option GameMap
index_get index name = lookup_key index.maps (map_key name)
