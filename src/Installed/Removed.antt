-- ===== src/Installed/Removed.antt =====
-- A removal deletes no file that was not installed, or that changed since.
use reveille.Prelude.{
  not, filter, if◌then◌else◌, ◌&&◌, ap, ◌≡◌, ◌≢◌, refl, sym, ◌∙◌, subst, Bool, true, false, List,
  [], ◌∷◌, Option, none, some, find, reverse, arith, inl, inr, Bool-cases, Result, ok, err, ok_or,
  ◌>>=◌, find-holds, unwrap_or,
}
use reveille.Text.{Text, Bytes, text_eq, text_eq_iff, text_eq_refl, is_some, eq_ignore_ascii_case}
use reveille.Installed.{
  FilePath, path_eq, Disk, InstalledItem, RecordFile, items, remove, read_file, delete_file,
  without_path, in_search_path, is_removable, removable, is_named, RemovalError, unreadable,
  check_unchanged, compare_hash, after_check, deleted, remove_package, Removal, remove_found,
  remove_installed_item, not_deleted, not_installed, record_unavailable, folder_unavailable, forget,
}
use reveille.Installed.Recorded.{path_eq_sound}
use mathlib.Core.List.{Mem, mem-cons_self, mem-cons_of_mem, mem-reverse}

find-Mem : {A : Type 0} (p : A → Bool) (xs : List A) (x : A) → find p xs ≡ some x → Mem x xs
find-Mem p [] x h = cc h
find-Mem p (y ∷ xs) x h = elim (Bool-cases (p y)) [
  | inl here ↦ subst (λ z. Mem z (y ∷ xs)) (cc (rw here at h)) (mem-cons_self)
  | inr later ↦ mem-cons_of_mem y (find-Mem p xs x (rw later at h))
]

read_file-delete_file :
    (disk : Disk) (path : FilePath) → read_file (delete_file path disk) path ≡ none
unfolding read_file delete_file
read_file-delete_file [] path = refl
read_file-delete_file (f ∷ disk) path = ground (arith, read_file-delete_file disk path)

-- Another file reads as before.
read_file-delete_other :
    (disk : Disk) (path other : FilePath)
    → path ≢ other
    → read_file (delete_file path disk) other ≡ read_file disk other
unfolding read_file delete_file
read_file-delete_other [] path other d = refl
read_file-delete_other ((p, bytes) ∷ disk) path other d = elim (Bool-cases (path_eq p path)) [
  | inl same ↦ elim (Bool-cases (path_eq p other)) [
    | inl both ↦ absurd (d (sym (path_eq_sound p path same) ∙ path_eq_sound p other both))
    | inr apart ↦ rw (same, apart) (read_file-delete_other disk path other d)
  ]
  | inr kept ↦ elim (Bool-cases (path_eq p other)) [
    | inl both ↦ rw (kept, both) refl
    | inr apart ↦ rw (kept, apart) (read_file-delete_other disk path other d)
  ]
]

module _ (sha256 : Bytes → Text) where
  -- An installed package that is still as it was written: an item of the record with the name asked
  -- for, in a directory that the game reads, whose file has the digest that was recorded.
  pub record IsOwn (disk : Disk) (list : List InstalledItem) (search_path : List FilePath)
      (filename : Text) (item : InstalledItem) : Type 0 where
    pub contents : Bytes
    pub recorded : Mem item list
    pub asked : eq_ignore_ascii_case item.filename filename ≡ true
    pub read : in_search_path item.path search_path ≡ true
    pub named : is_named item ≡ true
    pub stored : read_file disk item.path ≡ some contents
    pub unchanged : sha256 contents ≡ item.sha256

  -- The last item of the record with the name asked for whose file stands in a directory that the
  -- game reads is unchanged, and nothing keeps it from being deleted.
  pub record IsDeletable (can_delete ready : Bool) (disk : Disk) (list : List InstalledItem)
      (search_path : List FilePath) (filename : Text) : Type 0 where
    pub last : InstalledItem
    pub contents : Bytes
    pub deletes : can_delete ≡ true
    pub possible : ready ≡ true
    pub found : find (is_removable disk search_path filename) (reverse list) ≡ some last
    pub named : is_named last ≡ true
    pub stored : read_file disk last.path ≡ some contents
    pub unchanged : sha256 contents ≡ last.sha256

  -- What a removal leaves: where nothing could be deleted all as it was,
  -- or else a disk without one such file and nothing else changed.
  pub data Leaves (can_delete can_write ready : Bool) (search_path : List FilePath)
      (filename : Text) (disk : Disk) (record_file : RecordFile)
      : Result RemovalError Text → Disk → RecordFile → Type 0 where
    untouched :
        (e : RemovalError)
        → ¬ (IsDeletable can_delete ready disk (items record_file) search_path filename)
        → Leaves can_delete can_write ready search_path filename disk record_file
            (err e)
            disk
            record_file
    removed :
        {left : Disk} {left_record : RecordFile} (item : InstalledItem)
        → IsOwn disk (items record_file) search_path filename item
        → read_file left item.path ≡ none
        → ((other : FilePath) → item.path ≢ other → read_file left other ≡ read_file disk other)
        → left_record ≡ (
            if can_write
            then some (filter (λ known. not (path_eq known.path item.path)) (items record_file))
            else record_file)
        → Leaves can_delete can_write ready search_path filename disk record_file
            (ok item.filename)
            left
            left_record

  remove-record :
      (can_write : Bool) (path : FilePath) (record_file : RecordFile)
      → (remove can_write path record_file).1 ≡ (
          if can_write
          then some (filter (λ known. not (path_eq known.path path)) (items record_file))
          else record_file)
  unfolding remove without_path
  remove-record true path record_file = refl
  remove-record false path record_file = refl

  compare_hash-eq :
      (can_delete can_write same_name : Bool) (file : Option Bytes) (recorded : Text)
      → compare_hash sha256 can_delete can_write same_name
          (ok_or file unreadable >>= λ bytes. ok (sha256 bytes))
          recorded
        ≡ ok tt
      → (contents : Bytes) × (same_name ≡ true)
        × (file ≡ some contents)
        × (sha256 contents ≡ recorded)
  compare_hash-eq can_delete can_write false file recorded h = cc h
  compare_hash-eq can_delete can_write true none recorded h = cc h
  compare_hash-eq can_delete can_write true (some contents) recorded h =
      elim (Bool-cases (text_eq (sha256 contents) recorded)) [
        | inl same ↦ (contents, refl, refl, (text_eq_iff (sha256 contents) recorded).0 same)
        | inr other ↦ cc (rw other at h)
      ]

  compare_hash-ok :
      (can_delete can_write same_name : Bool) (file : Option Bytes) (contents : Bytes)
      (recorded : Text)
      → same_name ≡ true
      → file ≡ some contents
      → sha256 contents ≡ recorded
      → compare_hash sha256 can_delete can_write same_name
          (ok_or file unreadable >>= λ bytes. ok (sha256 bytes))
          recorded
        ≡ ok tt
  compare_hash-ok can_delete can_write same_name file contents recorded n f e =
      rw n (rw f (rw e (rw (text_eq_refl recorded) refl)))

  module _ (can_delete can_write ready : Bool) (search_path : List FilePath) (filename : Text)
      (disk : Disk) (record_file : RecordFile) where
    abbrev pub LeavesRemoval : Removal sha256 can_delete can_write → Type 0
    LeavesRemoval r =
        Leaves can_delete can_write ready search_path filename disk record_file r.outcome r.disk
          r.record_file

    abbrev Deletable : Type 0
    Deletable = IsDeletable can_delete ready disk (items record_file) search_path filename

    forget-Leaves :
        (item : InstalledItem) (can : Bool)
        → can_delete ≡ can
        → IsOwn disk (items record_file) search_path filename item
        → LeavesRemoval (
            forget sha256 can_delete can_write item record_file
              (deleted sha256 can_delete can_write can disk item.path))
    forget-Leaves item false c own = untouched not_deleted (λ d. cc (c, d.deletes))
    forget-Leaves item true c own =
        removed item own (read_file-delete_file disk item.path)
          (read_file-delete_other disk item.path) (remove-record can_write item.path record_file)

    after_check-Leaves :
        (item : InstalledItem) (check : Result RemovalError Unit)
        → (Deletable → check ≡ ok tt)
        → (check ≡ ok tt → IsOwn disk (items record_file) search_path filename item)
        → LeavesRemoval (
            forget sha256 can_delete can_write item record_file
              (after_check sha256 can_delete can_write check disk item.path))
    after_check-Leaves item (err e) passes own = untouched e (λ d. failed e (passes d))
      where
        failed : (e : RemovalError) → ◌≡◌ {A = Result RemovalError Unit} (err e) (ok tt) → ⊥
        failed e h = cc
    after_check-Leaves item (ok tt) passes own = forget-Leaves item can_delete refl (own refl)

    Deletable-check_unchanged :
        (item : InstalledItem)
        → removable disk (items record_file) filename search_path ≡ some item
        → Deletable
        → check_unchanged sha256 can_delete can_write disk item ≡ ok tt
    unfolding removable
    Deletable-check_unchanged item f d =
        subst (λ i. check_unchanged sha256 can_delete can_write disk i ≡ ok tt)
          (ap (λ o. unwrap_or o item) (sym d.found ∙ f))
          (compare_hash-ok can_delete can_write (is_named d.last) (read_file disk d.last.path)
            d.contents d.last.sha256 d.named d.stored d.unchanged)

    none_found : removable disk (items record_file) filename search_path ≡ none → ¬ Deletable
    unfolding removable
    none_found f d = absent d.last (sym f ∙ d.found)
      where
        absent : (item : InstalledItem) → none ≡ some item → ⊥
        absent item h = cc

    removable-IsOwn :
        (item : InstalledItem)
        → removable disk (items record_file) filename search_path ≡ some item
        → check_unchanged sha256 can_delete can_write disk item ≡ ok tt
        → IsOwn disk (items record_file) search_path filename item
    unfolding removable
    removable-IsOwn item f h =
        let (contents, named, stored, unchanged) =
          compare_hash-eq can_delete can_write (is_named item) (read_file disk item.path)
            item.sha256 h in
        let test =
          find-holds (is_removable disk search_path filename) (reverse (items record_file)) item
            f in
        record {
          contents = contents;
          recorded = mem-reverse.0 (
              find-Mem (is_removable disk search_path filename) (reverse (items record_file)) item
                f);
          asked = ground (arith, test);
          read = ground (arith, test);
          named = named;
          stored = stored;
          unchanged = unchanged;
        }

    remove_found-Leaves :
        (found : Option InstalledItem)
        → removable disk (items record_file) filename search_path ≡ found
        → LeavesRemoval (remove_found sha256 can_delete can_write found disk record_file)
    unfolding remove_package
    remove_found-Leaves none f = untouched not_installed (none_found f)
    remove_found-Leaves (some item) f =
        after_check-Leaves item (check_unchanged sha256 can_delete can_write disk item)
          (Deletable-check_unchanged item f) (removable-IsOwn item f)

  -- A removal deletes something exactly if it can: an error is reported only where the record, the
  -- game's directories or the right to delete are missing, or where the last item of the record
  -- with the name asked for and a file in those directories is not unchanged, and it has left the
  -- disk and the record as they were. A success has deleted the file of one item of the record,
  -- which has the name asked for, is in a directory that the game reads and still has the digest
  -- that was recorded; every other file reads as before, and the record is without that path if it
  -- could be written, and otherwise as it was.
  pub remove_installed_item-Leaves :
      (can_delete can_write has_record : Bool) (search_path : Option (List FilePath))
      (filename : Text) (disk : Disk) (record_file : RecordFile)
      → LeavesRemoval can_delete can_write
          (has_record && is_some search_path)
          (unwrap_or search_path [])
          filename
          disk
          record_file
          (remove_installed_item sha256 can_delete can_write has_record search_path filename disk
            record_file)
  unfolding remove_installed_item
  remove_installed_item-Leaves d w false search_path filename disk record_file =
      untouched record_unavailable (λ p. cc p.possible)
  remove_installed_item-Leaves d w true none filename disk record_file =
      untouched folder_unavailable (λ p. cc p.possible)
  remove_installed_item-Leaves d w true (some search_path) filename disk record_file =
      remove_found-Leaves d w true search_path filename disk record_file _ refl
