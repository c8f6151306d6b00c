-- ===== src/Content/Archive/Install/Effects.antt =====
-- What an installation leaves in the game directory.
use reveille.Prelude.{
  ◌≡◌, refl, sym, ap, ◌∙◌, Bool, true, false, [], ◌∷◌, ◌++◌, Option, none, some, if◌then◌else◌,
  Result, ok, err, arith, Bool-cases, inl, inr,
}
use reveille.Text.{
  Text, Bytes, text_eq, text_eq_iff, text_eq_refl, eq_ignore_ascii_case, to_ascii_lowercase,
}
use reveille.Content.Archive.{ArchiveError, already_exists, install_failed}
use reveille.Content.Archive.Install.{
  Folder, DownloadedArchive, existing_package, target_of, exists_file, persist, checked_archive,
  install_into, after_check, install_archive, install_verified_archive,
}

-- The outcome of an installation: nothing changed, the package is the directory's one new file, or
-- it took the place of the first file with its name, case aside.
pub data Installed (folder : Folder) (archive : DownloadedArchive)
    : Result ArchiveError Text × Folder → Type 0 where
  kept : (e : ArchiveError) → Installed folder archive (err e, folder)
  added :
      existing_package folder archive.filename ≡ none
      → Installed folder archive
          (ok archive.filename, folder ++ (archive.filename, archive.bytes) ∷ [])

pub data Replaced (folder : Folder) (archive : DownloadedArchive)
    : Result ArchiveError Text × Folder → Type 0 where
  failed : (e : ArchiveError) → Replaced folder archive (err e, folder)
  new :
      existing_package folder archive.filename ≡ none
      → Replaced folder archive
          (ok archive.filename, folder ++ (archive.filename, archive.bytes) ∷ [])
  replaced :
      (before after : Folder) (name : Text) (old : Bytes)
      → folder ≡ before ++ (name, old) ∷ after
      → existing_package before archive.filename ≡ none
      → eq_ignore_ascii_case name archive.filename ≡ true
      → Replaced folder archive (ok name, before ++ (name, archive.bytes) ∷ after)

same_ignoring_case :
    (a b c : Text) → text_eq a b ≡ true → eq_ignore_ascii_case a c ≡ eq_ignore_ascii_case b c
same_ignoring_case a b c h = ap (λ x. eq_ignore_ascii_case x c) ((text_eq_iff a b).0 h)

eq_ignore_ascii_case_refl : (a : Text) → eq_ignore_ascii_case a a ≡ true
unfolding eq_ignore_ascii_case
eq_ignore_ascii_case_refl a = text_eq_refl (to_ascii_lowercase a)

existing-tail :
    (name : Text) (old : Bytes) (rest : Folder) (filename : Text)
    → existing_package ((name, old) ∷ rest) filename ≡ none
    → (eq_ignore_ascii_case name filename ≡ false) × (existing_package rest filename ≡ none)
unfolding existing_package
existing-tail name old rest filename h = ground arith

-- A name that is another one, case aside, is another name.
other_name :
    (name wanted filename : Text)
    → eq_ignore_ascii_case name filename ≡ false
    → eq_ignore_ascii_case wanted filename ≡ true
    → text_eq name wanted ≡ false
other_name name wanted filename other same = elim (Bool-cases (text_eq name wanted)) [
  | inl e ↦ ground (arith, same_ignoring_case name wanted filename e)
  | inr e ↦ e
]

-- A name that no file has, case aside, is appended.
persist-absent :
    (folder : Folder) (filename : Text) (bytes : Bytes)
    → existing_package folder filename ≡ none
    → (persist folder filename bytes ≡ folder ++ (filename, bytes) ∷ [])
      × (exists_file folder filename ≡ false)
unfolding persist
persist-absent [] filename bytes h = (refl, refl)
persist-absent ((name, old) ∷ rest) filename bytes h =
    let (other, absent) = existing-tail name old rest filename h in
    let (e, f) = persist-absent rest filename bytes absent in
    let differs = other_name name filename filename other (eq_ignore_ascii_case_refl filename) in
    (rw differs (ap (◌∷◌ (name, old)) e), rw differs f)

-- The first file with the name, case aside.
record First (folder : Folder) (filename name : Text) : Type 0 where
  before : Folder
  after : Folder
  old : Bytes
  parts : folder ≡ before ++ (name, old) ∷ after
  absent : existing_package before filename ≡ none
  same : eq_ignore_ascii_case name filename ≡ true

existing-First :
    (folder : Folder) (filename name : Text)
    → existing_package folder filename ≡ some name
    → First folder filename name
unfolding existing_package
existing-First [] filename name h = ground arith
existing-First ((n, old) ∷ rest) filename name h =
    elim (Bool-cases (eq_ignore_ascii_case n filename)) [
      | inl same ↦
          let e : n ≡ name = ground arith in
          record {
            before = [];
            after = rest;
            old = old;
            parts = ap (λ x. (x, old) ∷ rest) e;
            absent = refl;
            same = ap (λ x. eq_ignore_ascii_case x filename) (sym e) ∙ same;
          }
      | inr other ↦
          let later = existing-First rest filename name (ground arith) in
          record {
            before = (n, old) ∷ later.before;
            after = later.after;
            old = later.old;
            parts = ap (◌∷◌ (n, old)) later.parts;
            absent = rw other later.absent;
            same = later.same;
          }
    ]

persist-first :
    (before after : Folder) (filename name : Text) (old bytes : Bytes)
    → existing_package before filename ≡ none
    → eq_ignore_ascii_case name filename ≡ true
    → (persist (before ++ (name, old) ∷ after) name bytes ≡ before ++ (name, bytes) ∷ after)
      × (exists_file (before ++ (name, old) ∷ after) name ≡ true)
unfolding persist
persist-first [] after filename name old bytes h same =
    (rw (text_eq_refl name) refl, rw (text_eq_refl name) refl)
persist-first ((n, b) ∷ before) after filename name old bytes h same =
    let (other, absent) = existing-tail n b before filename h in
    let (e, f) = persist-first before after filename name old bytes absent same in
    let differs = other_name n name filename other same in
    (rw differs (ap (◌∷◌ (n, b)) e), rw differs f)

verified-Replaced :
    (ready : Bool) (folder : Folder) (archive : DownloadedArchive) (found : Option Text)
    → existing_package folder archive.filename ≡ found
    → Replaced folder archive (install_into ready folder archive (target_of found archive.filename))
verified-Replaced false folder archive found e = failed install_failed
verified-Replaced true folder archive none e =
    rw (persist-absent folder archive.filename archive.bytes e).0 (new e)
verified-Replaced true folder archive (some name) e =
    let first = existing-First folder archive.filename name e in
    let stored =
      persist-first first.before first.after archive.filename name first.old archive.bytes
        first.absent first.same in
    let path : persist folder name archive.bytes
        ≡ first.before ++ (name, archive.bytes) ∷ first.after =
      ap (λ f. persist f name archive.bytes) first.parts ∙ stored.0 in
    rw path (replaced first.before first.after name first.old first.parts first.absent first.same)

checked-Replaced :
    (r : Result ArchiveError Unit) (folder : Folder) (archive : DownloadedArchive)
    (rest : Result ArchiveError Text × Folder)
    → Replaced folder archive rest
    → Replaced folder archive (after_check r folder rest)
checked-Replaced (ok u) folder archive rest h = h
checked-Replaced (err e) folder archive rest h = failed e

-- An installation of a verified package either fails and leaves the directory as it was, or puts
-- the package in: in the place of the first file with its name, case aside, or else as a new file.
-- No other file changes.
pub install_verified_archive-Replaced :
    (file_system_ok : Bool) (folder : Folder) (archive : DownloadedArchive)
    → Replaced folder archive (install_verified_archive file_system_ok folder archive)
unfolding install_verified_archive
install_verified_archive-Replaced ready folder archive =
    checked-Replaced (checked_archive archive) folder archive
      (install_into ready folder archive
        (target_of (existing_package folder archive.filename) archive.filename))
      (verified-Replaced ready folder archive (existing_package folder archive.filename) refl)

new-Installed :
    (ready : Bool) (folder : Folder) (archive : DownloadedArchive) (found : Option Text)
    → existing_package folder archive.filename ≡ found
    → Installed folder archive (
        if exists_file folder (target_of found archive.filename)
        then (err (already_exists (target_of found archive.filename)), folder)
        else install_into ready folder archive (target_of found archive.filename))
new-Installed ready folder archive (some name) e =
    let first = existing-First folder archive.filename name e in
    let stored =
      persist-first first.before first.after archive.filename name first.old archive.bytes
        first.absent first.same in
    rw (ap (λ f. exists_file f name) first.parts ∙ stored.1) (kept (already_exists name))
new-Installed false folder archive none e =
    rw (persist-absent folder archive.filename archive.bytes e).1 (kept install_failed)
new-Installed true folder archive none e =
    let stored = persist-absent folder archive.filename archive.bytes e in
    rw stored.1 (rw stored.0 (added e))

checked-Installed :
    (r : Result ArchiveError Unit) (folder : Folder) (archive : DownloadedArchive)
    (rest : Result ArchiveError Text × Folder)
    → Installed folder archive rest
    → Installed folder archive (after_check r folder rest)
checked-Installed (ok u) folder archive rest h = h
checked-Installed (err e) folder archive rest h = kept e

-- An installation without verification never overwrites: it fails and leaves the directory as it
-- was, or no file had the package's name, case aside, and the package is the one new file.
pub install_archive-Installed :
    (file_system_ok : Bool) (folder : Folder) (archive : DownloadedArchive)
    → Installed folder archive (install_archive file_system_ok folder archive)
unfolding install_archive
install_archive-Installed ready folder archive =
    let target = target_of (existing_package folder archive.filename) archive.filename in
    checked-Installed (checked_archive archive) folder archive
      (if exists_file folder target
        then (err (already_exists target), folder)
        else install_into ready folder archive target)
      (new-Installed ready folder archive (existing_package folder archive.filename) refl)
