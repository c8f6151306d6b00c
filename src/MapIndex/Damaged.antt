-- ===== src/MapIndex/Damaged.antt =====
-- An archive with a member that cannot be read.
use reveille.Prelude.{◌≡◌, refl, ap, false, List, [], ◌∷◌, ◌++◌, some}
use reveille.Text.{Text}
use reveille.Bsp.{read_header}
use reveille.MapIndex.Key.{normalized_bsp_path}
use reveille.MapIndex.Scan.{
  MapIndex, ZipEntry, member, damaged, scan_members, scan_pk3, add_entry, pk3_provider,
}
use reveille.MapIndex.Chain.{file, scan_package, skip_package, after_archive}

scan_members-damaged :
    (path : Text) (before after : List ZipEntry) (index : MapIndex)
    → scan_members path (before ++ damaged ∷ after) index
      ≡ ((scan_members path before index).0, false)
unfolding scan_members
scan_members-damaged path [] after index = refl
scan_members-damaged path (damaged ∷ before) after index = refl
scan_members-damaged path (member name bytes ∷ before) after index =
    scan_members-damaged path before after
      (add_entry (pk3_provider path) path name (normalized_bsp_path name) (read_header bytes) index)

-- An archive with a damaged member is recorded as skipped, but the maps of the members before it
-- stay in the index as if they were the whole archive.
pub scan_package-damaged :
    (path : Text) (before after : List ZipEntry) (index : MapIndex)
    → scan_package path (file (some (before ++ damaged ∷ after))) index
      ≡ skip_package path (scan_members path before index).0
unfolding scan_package scan_pk3
scan_package-damaged path before after index =
    ap (after_archive path) (scan_members-damaged path before after index)
