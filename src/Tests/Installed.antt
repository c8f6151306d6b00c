-- ===== src/Tests/Installed.antt =====
-- Runs of the record of installs, and its theorems at concrete inputs.
use reveille.Prelude.{◌≡◌, refl, true, [], ◌∷◌, none, some, ok, err}
use reveille.Text.{Text, Bytes, codes, text_eq, eq_ignore_ascii_case, lower}
use reveille.Content.Browse.{map_kind}
use reveille.Installed.{
  FilePath, root_dir, normal, Disk, InstalledItem, RecordFile, is_file, path_eq, read_file, add,
  Removal, remove_installed_item, changed,
}
use reveille.Installed.Recorded.{IsRecorded, add-IsRecorded}
use reveille.Installed.Removed.{LeavesRemoval, remove_installed_item-Leaves}

abbrev folder : FilePath
folder = root_dir ∷ normal (codes "main") ∷ []

abbrev sniper_package : FilePath
sniper_package = root_dir ∷ normal (codes "main") ∷ normal (codes "Sniper.pk3") ∷ []

abbrev other_package : FilePath
other_package = root_dir ∷ normal (codes "main") ∷ normal (codes "pak0.pk3") ∷ []

abbrev disk : Disk
disk = (sniper_package, codes "PK") ∷ (other_package, codes "PK0") ∷ []

-- A digest that keeps the bytes.
abbrev digest : Bytes → Text
digest bytes = bytes

abbrev item : InstalledItem
item = record {
  id = 17;
  kind = map_kind;
  title = codes "Snipertown";
  page_url = none;
  filename = codes "Sniper.pk3";
  path = sniper_package;
  sha256 = codes "PK";
  size = 2;
  installed_at = 1700000000;
}

-- A record of an earlier file at the same path.
abbrev earlier : RecordFile
earlier = some (
    record {
      id = 16;
      kind = map_kind;
      title = codes "Old";
      page_url = none;
      filename = codes "Sniper.pk3";
      path = sniper_package;
      sha256 = codes "P0";
      size = 2;
      installed_at = 1600000000;
    }
    ∷ [])

package-is_file : is_file disk sniper_package ≡ true
unfolding read_file path_eq text_eq
package-is_file = refl

add-IsRecorded_example : IsRecorded disk (add true item earlier).1 item
add-IsRecorded_example = add-IsRecorded disk earlier item package-is_file

abbrev removal : Removal digest true true
removal =
    remove_installed_item digest true true true (some (folder ∷ [])) (codes "sniper.PK3") disk
      (some (item ∷ []))

remove_installed_item-Leaves_example :
    LeavesRemoval digest true true true
      (folder ∷ [])
      (codes "sniper.PK3")
      disk
      (some (item ∷ []))
      removal
remove_installed_item-Leaves_example =
    remove_installed_item-Leaves digest true true true (some (folder ∷ [])) (codes "sniper.PK3")
      disk (some (item ∷ []))

-- The package is deleted and forgotten, the game's own one stays.
removal_test :
    (removal.outcome ≡ ok (codes "Sniper.pk3"))
    × (removal.disk ≡ (other_package, codes "PK0") ∷ [])
    × (removal.record_file ≡ some [])
unfolding remove_installed_item eq_ignore_ascii_case text_eq lower path_eq
removal_test = (refl, refl, refl)

-- A package whose bytes differ from those recorded stays.
changed_test :
    (remove_installed_item digest true true true
      (some (folder ∷ []))
      (codes "sniper.PK3")
      disk
      earlier).outcome
    ≡ err changed
unfolding remove_installed_item eq_ignore_ascii_case text_eq lower path_eq
changed_test = refl
