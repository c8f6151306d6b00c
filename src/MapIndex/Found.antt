-- ===== src/MapIndex/Found.antt =====
-- The BSP files of a chain of directories, as a plain list in the order of the scan, and the scan as
-- an insertion of each.
use reveille.Prelude.{
  ◌≡◌, refl, ap, sym, ◌∙◌, Bool, true, false, List, [], ◌∷◌, ◌++◌, Option, none, some, Result, ok,
  err, bind-eq-ok, arith, if◌then◌else◌, keep,
}
use reveille.Text.{Text}
use reveille.TreeMap.{insert, lookup}
use reveille.Bsp.{BspHeader, BspError, read_header}
use reveille.MapIndex.{
  Provider, GameMap, MapIndex, extended, insert_provider, add_entry, ZipEntry, member, damaged,
  pk3_provider, scan_members, scan_pk3, TreeFile, tree_header, is_candidate, by_lower_path, sort_by,
  scan_files, scan_tree, Tree, no_maps, walk_failed, walked, Node, file, folder, DirEntry,
  GameDirectory, not_directory, unreadable, listed, dir_provider, loose_provider, after_archive,
  scan_package, scan_packages, scan_loose, packages_of, scan_game_directory, scan_directories,
  normalized_bsp_path,
}

-- A BSP file that the engine could load.
pub record Found : Type 0 where
  pub key : Text
  pub display : Text
  pub provider : Provider

abbrev pub found_entry :
    (Text → BspHeader → Provider)
    → Text
    → Option (Text × Text)
    → Result BspError BspHeader
    → Option Found
found_entry provider original (some (key, display)) (ok header) =
    some (record { key = key; display = display; provider = provider original header })
found_entry provider original path header = none

-- An archive's members up to the first damaged one.
abbrev pub found_members : Text → List ZipEntry → List Found
found_members path [] = []
found_members path (damaged ∷ rest) = []
found_members path (member name bytes ∷ rest) =
    keep (found_entry (pk3_provider path) name (normalized_bsp_path name) (read_header bytes))
      (found_members path rest)

abbrev pub found_file : (TreeFile → Text → BspHeader → Provider) → TreeFile → Option Found
found_file provider f =
    if is_candidate f
    then found_entry (provider f) f.path (normalized_bsp_path f.path) (tree_header f.contents)
    else none

abbrev pub found_files : (TreeFile → Text → BspHeader → Provider) → List TreeFile → List Found
found_files provider [] = []
found_files provider (f ∷ rest) = keep (found_file provider f) (found_files provider rest)

abbrev pub found_tree : (TreeFile → Text → BspHeader → Provider) → Tree → List Found
found_tree provider (walked files) = found_files provider (sort_by by_lower_path files)
found_tree provider tree = []

abbrev pub found_node : Text → Node → List Found
found_node path (file none) = []
found_node path (file (some members)) = found_members path members
found_node path (folder tree) = found_tree (dir_provider path) tree

abbrev pub found_packages : List DirEntry → List Found
found_packages [] = []
found_packages (e ∷ rest) = found_node e.path e.node ++ found_packages rest

-- The packages in their order, then the loose files.
abbrev pub found_directory : GameDirectory → List Found
found_directory (listed entries tree) =
    found_packages (packages_of entries) ++ found_tree loose_provider tree
found_directory directory = []

abbrev pub found_chain : List GameDirectory → List Found
found_chain [] = []
found_chain (d ∷ rest) = found_directory d ++ found_chain rest

unfoldable pub insert_found : Found → List (Text × GameMap) → List (Text × GameMap)
insert_found f maps = insert f.key (extended f.key f.display f.provider (lookup f.key maps)) maps

unfoldable pub insert_all : List Found → List (Text × GameMap) → List (Text × GameMap)
unfolding insert_found
insert_all [] maps = maps
insert_all (f ∷ fs) maps = insert_all fs (insert_found f maps)

insert_all-append :
    (fs gs : List Found) (maps : List (Text × GameMap))
    → insert_all (fs ++ gs) maps ≡ insert_all gs (insert_all fs maps)
unfolding insert_all
insert_all-append [] gs maps = refl
insert_all-append (f ∷ fs) gs maps = insert_all-append fs gs (insert_found f maps)

maps-add_entry :
    (provider : Text → BspHeader → Provider) (source original : Text) (path : Option (Text × Text))
    (header : Result BspError BspHeader) (fs : List Found) (index : MapIndex)
    → insert_all (keep (found_entry provider original path header) fs) index.maps
      ≡ insert_all fs (add_entry provider source original path header index).maps
unfolding insert_all insert_provider
maps-add_entry provider source original none header fs index = refl
maps-add_entry provider source original (some (key, display)) (ok header) fs index = refl
maps-add_entry provider source original (some (key, display)) (err e) fs index = refl

maps-scan_members :
    (path : Text) (members : List ZipEntry) (index : MapIndex)
    → (scan_members path members index).0.maps ≡ insert_all (found_members path members) index.maps
unfolding scan_members
maps-scan_members path [] index = unfold insert_all in refl
maps-scan_members path (damaged ∷ rest) index = unfold insert_all in refl
maps-scan_members path (member name bytes ∷ rest) index =
    maps-scan_members path rest
      (add_entry (pk3_provider path) path name (normalized_bsp_path name) (read_header bytes) index)
    ∙ sym (
        maps-add_entry (pk3_provider path) path name (normalized_bsp_path name) (read_header bytes)
          (found_members path rest) index)

maps-if :
    (b : Bool) (o : Option Found) (fs : List Found) (added index : MapIndex)
    → insert_all (keep o fs) index.maps ≡ insert_all fs added.maps
    → insert_all (keep (if b then o else none) fs) index.maps
      ≡ insert_all fs (if b then added else index).maps
maps-if true o fs added index h = h
maps-if false o fs added index h = refl

maps-scan_files :
    (provider : TreeFile → Text → BspHeader → Provider) (files : List TreeFile) (index : MapIndex)
    → (scan_files provider files index).maps ≡ insert_all (found_files provider files) index.maps
unfolding scan_files
maps-scan_files provider [] index = unfold insert_all in refl
maps-scan_files provider (f ∷ rest) index =
    let path = normalized_bsp_path f.path in
    let header = tree_header f.contents in
    let added = add_entry (provider f) f.full_path f.path path header index in
    maps-scan_files provider rest (if is_candidate f then added else index)
    ∙ sym (
        maps-if (is_candidate f) (found_entry (provider f) f.path path header)
          (found_files provider rest) added index
          (maps-add_entry (provider f) f.full_path f.path path header (found_files provider rest)
            index))

maps-after_archive : (path : Text) (r : MapIndex × Bool) → (after_archive path r).maps ≡ r.0.maps
maps-after_archive path (index, true) = refl
maps-after_archive path (index, false) = refl

maps-scan_package :
    (path : Text) (node : Node) (index : MapIndex)
    → (scan_package path node index).maps ≡ insert_all (found_node path node) index.maps
unfolding scan_package scan_pk3 scan_tree
maps-scan_package path (file none) index = unfold insert_all in refl
maps-scan_package path (file (some members)) index =
    maps-after_archive path (scan_members path members index) ∙ maps-scan_members path members index
maps-scan_package path (folder no_maps) index = unfold insert_all in refl
maps-scan_package path (folder walk_failed) index = unfold insert_all in refl
maps-scan_package path (folder (walked files)) index =
    maps-scan_files (dir_provider path) (sort_by by_lower_path files) index

pub maps-scan_packages :
    (entries : List DirEntry) (index : MapIndex)
    → (scan_packages entries index).maps ≡ insert_all (found_packages entries) index.maps
unfolding scan_packages
maps-scan_packages [] index = unfold insert_all in refl
maps-scan_packages (e ∷ rest) index =
    maps-scan_packages rest (scan_package e.path e.node index)
    ∙ ap (insert_all (found_packages rest)) (maps-scan_package e.path e.node index)
    ∙ sym (insert_all-append (found_node e.path e.node) (found_packages rest) index.maps)

maps-scan_loose :
    (tree : Tree) (index index' : MapIndex)
    → scan_loose tree index ≡ ok index'
    → index'.maps ≡ insert_all (found_tree loose_provider tree) index.maps
unfolding scan_loose scan_tree
maps-scan_loose no_maps index index' h = unfold insert_all in (ground arith)
maps-scan_loose walk_failed index index' h = cc
maps-scan_loose (walked files) index index' h =
    ground (arith, maps-scan_files loose_provider (sort_by by_lower_path files) index)

maps-scan_game_directory :
    (d : GameDirectory) (index index' : MapIndex)
    → scan_game_directory d index ≡ ok index'
    → index'.maps ≡ insert_all (found_directory d) index.maps
unfolding scan_game_directory
maps-scan_game_directory not_directory index index' h = cc
maps-scan_game_directory unreadable index index' h = cc
maps-scan_game_directory (listed entries tree) index index' h =
    maps-scan_loose tree (scan_packages (packages_of entries) index) index' h
    ∙ ap (insert_all (found_tree loose_provider tree))
        (maps-scan_packages (packages_of entries) index)
    ∙ sym (
        insert_all-append (found_packages (packages_of entries)) (found_tree loose_provider tree)
          index.maps)

-- A scan that succeeds has inserted what the directories hold, in the order of the scan.
pub maps-scan_directories :
    (ds : List GameDirectory) (index index' : MapIndex)
    → scan_directories ds index ≡ ok index'
    → index'.maps ≡ insert_all (found_chain ds) index.maps
unfolding scan_directories
maps-scan_directories [] index index' h = unfold insert_all in (ground arith)
maps-scan_directories (d ∷ rest) index index' h =
    let (scanned, first, later) = bind-eq-ok (scan_game_directory d index) _ h in
    maps-scan_directories rest scanned index' later
    ∙ ap (insert_all (found_chain rest)) (maps-scan_game_directory d index scanned first)
    ∙ sym (insert_all-append (found_directory d) (found_chain rest) index.maps)
