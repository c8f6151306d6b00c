-- ===== src/Tests/Content.antt =====
-- Runs of the package checks, and their theorems at concrete inputs.
use reveille.Prelude.{◌≡◌, refl, List, [], ◌∷◌, ◌++◌, some, true, false, ok, err, All}
use reveille.Text.{
  Bytes, codes, text_eq, lower, strip_prefix, strip_suffix, trim_by, is_whitespace, starts_with,
  eq_ignore_ascii_case, utf8_width,
}
use reveille.Text.Split.{split_by, rsplit_once}
use reveille.Text.Number.{pos, i32_of_le_bytes}
use reveille.Bsp.{read_header}
use reveille.MapIndex.{map_key, strip_extension, strip_folder}
use reveille.Content.Archive.{
  ArchiveMap, ArchiveEntry, archive_entry, inspect_archive, disambiguate_by_checksum,
  forbidden_entry,
}
use reveille.Content.Archive.Paths.{IsSafe, inspect_archive-IsSafe}
use reveille.Content.Archive.Confirmed.{Chooses, disambiguate_by_checksum-Chooses}
use reveille.Content.Archive.Install.{
  Folder, DownloadedArchive, install_archive, install_verified_archive,
}
use reveille.Content.Archive.Install.Effects.{
  Installed, Replaced, install_archive-Installed, install_verified_archive-Replaced,
}
use reveille.Prelude.{Result, ℕ, length}
use reveille.Text.{Text}
use reveille.MapIndex.{sort_by}
use reveille.Content.Catalogue.{
  WantedMap, CatalogueCandidate, exact, CatalogueNonResultReason, http_status,
}
use reveille.Content.Resolve.{ranks_before, resolve_candidates, choice_search_term}
use reveille.Content.Resolve.Ranked.{Resolves, resolve_candidates-Resolves}

abbrev bytes : Bytes
bytes = codes "2015" ++ 19 ∷ 0 ∷ 0 ∷ 0 ∷ 7 ∷ 0 ∷ 0 ∷ 0 ∷ []

abbrev entries : List ArchiveEntry
entries =
    archive_entry (codes "maps/") true []
    ∷ archive_entry (codes "maps/Dm1.BSP") false bytes
    ∷ archive_entry (codes "readme.txt") false []
    ∷ []

abbrev found : ArchiveMap
found = record { entry = codes "maps/Dm1.BSP"; key = codes "dm1"; checksum = pos 7 }

inspected : inspect_archive (some entries) ≡ ok (found ∷ [])
unfolding inspect_archive utf8_width map_key strip_extension strip_suffix strip_folder strip_prefix
    trim_by is_whitespace lower starts_with text_eq split_by rsplit_once eq_ignore_ascii_case
    read_header i32_of_le_bytes
inspected = refl

-- A program is refused in any case.
program_refused :
    inspect_archive (some (archive_entry (codes "a/B.ExE") false [] ∷ []))
    ≡ err (forbidden_entry (codes "a/B.ExE"))
unfolding inspect_archive utf8_width lower starts_with strip_prefix text_eq split_by rsplit_once
    eq_ignore_ascii_case
program_refused = refl

inspect_archive-IsSafe_example : All IsSafe entries
inspect_archive-IsSafe_example = inspect_archive-IsSafe entries inspected

dm1_key : map_key (codes "DM1") ≡ some (codes "dm1")
unfolding map_key strip_extension strip_suffix strip_folder strip_prefix trim_by is_whitespace lower
dm1_key = refl

disambiguate_by_checksum-Chooses_example :
    Chooses
      ([] ∷ (found ∷ []) ∷ [])
      (codes "DM1")
      (pos 7)
      0
      (disambiguate_by_checksum ([] ∷ (found ∷ []) ∷ []) (codes "DM1") (pos 7))
disambiguate_by_checksum-Chooses_example =
    disambiguate_by_checksum-Chooses ([] ∷ (found ∷ []) ∷ []) (codes "DM1") (pos 7)

abbrev archive : DownloadedArchive
archive = record { entries = some entries; filename = codes "Dm1.pk3"; bytes = codes "new" }

abbrev game : Folder
game = (codes "Pak0.pk3", codes "base") ∷ (codes "DM1.PK3", codes "old") ∷ []

install_archive-Installed_example : Installed game archive (install_archive true game archive)
install_archive-Installed_example = install_archive-Installed true game archive

install_verified_archive-Replaced_example :
    Replaced game archive (install_verified_archive true game archive)
install_verified_archive-Replaced_example = install_verified_archive-Replaced true game archive

abbrev wanted_map : WantedMap
wanted_map = record { name = codes "obj/obj_x"; key = codes "obj/obj_x" }

abbrev candidate : ℕ → Text → ℕ → CatalogueCandidate
candidate id key downloads = record {
  id = id;
  map_name = key;
  map_key = key;
  filename = codes "a.pk3";
  file_size = 1;
  map_file_tested = true;
  downloads = downloads;
  download_url = [];
}

abbrev candidates : List CatalogueCandidate
candidates =
    candidate 1 (codes "other") 9
    ∷ candidate 2 (codes "obj/obj_x") 1
    ∷ candidate 3 (codes "obj/obj_x") 5
    ∷ []

-- The exact match with the most downloads is selected.
resolve_candidates_test :
    (resolve_candidates wanted_map candidates).outcome
    ≡ exact (candidate 3 (codes "obj/obj_x") 5) (candidate 2 (codes "obj/obj_x") 1 ∷ [])
unfolding resolve_candidates ranks_before sort_by text_eq
resolve_candidates_test = refl

-- A map of an objective folder is looked for without its mode.
choice_search_term_test : choice_search_term (codes "obj/obj_x") ≡ some (codes "x")
unfolding choice_search_term rsplit_once strip_prefix strip_suffix text_eq
choice_search_term_test = refl

resolve_candidates-Resolves_example :
    ((resolve_candidates wanted_map candidates).hits ≡ length candidates)
    × Resolves wanted_map candidates (resolve_candidates wanted_map candidates).outcome
resolve_candidates-Resolves_example = resolve_candidates-Resolves wanted_map candidates

-- A catalogue that has the one map and refuses to answer for another.
abbrev catalogue : Text → Result CatalogueNonResultReason (List CatalogueCandidate)
catalogue [] = err (http_status 403)
catalogue (c ∷ term) = ok candidates

abbrev wanted_maps : List WantedMap
wanted_maps = wanted_map ∷ record { name = []; key = codes "y" } ∷ wanted_map ∷ []
