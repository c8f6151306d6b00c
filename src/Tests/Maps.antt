-- ===== src/Tests/Maps.antt =====
-- Runs of the map index and the preflight, and their theorems at concrete inputs.
use reveille.Prelude.{
  ◌≡◌, refl, ◌∙◌, List, [], ◌∷◌, ◌++◌, Option, some, arith, Result, ok, err, ◌↔◌,
}
use reveille.Text.{
  Text, Bytes, codes, text_eq, lower, trim_by, is_whitespace, strip_suffix, strip_prefix, ends_with,
  starts_with, eq_ignore_ascii_case,
}
use reveille.Text.Split.{split_by, rsplit_once}
use reveille.Text.Number.{pos, negsuc, i32_of_le_bytes}
use reveille.TreeMap.{lookup, text_compare, insert}
use reveille.Bsp.{BspHeader, ident_of, read_header}
use reveille.Bsp.Header.{le_bytes, word_of, read_header-le_bytes}
use reveille.MapIndex.{
  map_key, MapIndex, member, damaged, DirEntry, GameDirectory, listed, file, no_maps, ScanError,
  scan_chain, empty_index, scan_members, skip_package, scan_game_directory, scan_loose,
  scan_packages, scan_package, scan_pk3, sort_by, normalized_bsp_path, strip_extension,
  strip_folder, insert_provider,
}
use reveille.MapIndex.Names.{map_key-eq_of_fold}
use reveille.MapIndex.Found.{found_chain}
use reveille.MapIndex.Damaged.{scan_package-damaged}
use reveille.MapIndex.Lookup.{matching, as_map, lookup-scan_chain}
use reveille.Preflight.{PublishedChecksum, compatible, status_of, check}
use reveille.Preflight.Counts.{AllPresent, compatible-check}
use reveille.Preflight.Coverage.{FoundAs, has_key, check-FoundAs}
use reveille.Prelude.{find}

-- A header of an expansion with version 21 and checksum -2.
abbrev header_bytes : Bytes
header_bytes =
    b'E' ∷ b'A' ∷ b'L' ∷ b'A' ∷ le_bytes 21 (le_bytes (word_of (negsuc 1)) (codes "rest"))

abbrev header : BspHeader
header = record { ident = ident_of b'E' b'A' b'L' b'A'; version = pos 21; checksum = negsuc 1 }

read_header-le_bytes_example : read_header header_bytes ≡ ok header
read_header-le_bytes_example =
    read_header-le_bytes b'E' b'A' b'L' b'A' 21 (negsuc 1) (codes "rest") (omega arith)
      (omega arith) (omega arith)

-- Two packages with one map, in two directories.
abbrev pk3_file : Text → Text → Bytes → DirEntry
pk3_file name map_path bytes = record {
  name = name;
  path = name;
  node = file (some (member map_path bytes ∷ member (codes "readme.txt") [] ∷ []));
}

abbrev chain : List GameDirectory
chain =
    listed (pk3_file (codes "Pak0.pk3") (codes "maps/dm/mohdm6.bsp") header_bytes ∷ []) no_maps
    ∷ listed (pk3_file (codes "x.pk3") (codes "maps/DM/mohdm6.bsp") header_bytes ∷ []) no_maps
    ∷ []

abbrev index_of : Result ScanError MapIndex → MapIndex
index_of (ok index) = index
index_of (err e) = empty_index

abbrev index : MapIndex
index = index_of (scan_chain chain)

chain_scanned : scan_chain chain ≡ ok index
unfolding scan_chain scan_game_directory scan_loose scan_packages scan_package scan_pk3 sort_by
    normalized_bsp_path map_key strip_extension strip_suffix strip_folder strip_prefix trim_by
    is_whitespace lower ends_with starts_with text_eq split_by rsplit_once eq_ignore_ascii_case
    read_header insert_provider insert lookup text_compare i32_of_le_bytes ident_of
chain_scanned = refl

lookup-scan_chain_example :
    lookup (codes "dm/mohdm6") index.maps
    ≡ as_map (codes "dm/mohdm6") (matching (codes "dm/mohdm6") (found_chain chain))
lookup-scan_chain_example = lookup-scan_chain chain index (codes "dm/mohdm6") chain_scanned

abbrev rotation : List Text
rotation = codes "dm/mohdm6" ∷ codes "obj/obj_team2" ∷ codes "DM/mohdm6" ∷ []

abbrev published : Option PublishedChecksum
published = some (record { map = codes "dm/mohdm6"; checksum = pos 7 })

compatible-check_example :
    ((check index rotation published).verdict ≡ compatible)
    ↔ AllPresent (check index rotation published).maps
compatible-check_example = compatible-check index rotation published

map_key_test : map_key (codes "dm/mohdm6") ≡ some (codes "dm/mohdm6")
unfolding map_key strip_extension strip_suffix strip_folder strip_prefix trim_by is_whitespace lower
map_key_test = refl

check-FoundAs_example :
    FoundAs
      (status_of index published (codes "DM/mohdm6"))
      (find (has_key (some (codes "dm/mohdm6"))) (check index rotation published).maps)
unfolding text_eq lower
check-FoundAs_example =
    check-FoundAs index rotation published (codes "DM/mohdm6") (codes "dm/mohdm6")
      (map_key-eq_of_fold (codes "DM/mohdm6") (codes "dm/mohdm6") refl ∙ map_key_test) refl

scan_package-damaged_example :
    scan_package
      (codes "x.pk3")
      (file (some ((member (codes "maps/a.bsp") header_bytes ∷ []) ++ damaged ∷ [])))
      empty_index
    ≡ skip_package
        (codes "x.pk3")
        (scan_members (codes "x.pk3") (member (codes "maps/a.bsp") header_bytes ∷ []) empty_index).0
scan_package-damaged_example =
    scan_package-damaged (codes "x.pk3") (member (codes "maps/a.bsp") header_bytes ∷ []) []
      empty_index
