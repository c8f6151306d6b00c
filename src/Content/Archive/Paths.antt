-- ===== src/Content/Archive/Paths.antt =====
-- Where the entries of an inspected package are extracted.
use reveille.Prelude.{
  ℕ, ◌≡◌, ◌≢◌, ◌<◌, ltb, OnSome, refl, sym, ap, ◌∙◌, Bool, true, false, ◌||◌, List, [], ◌∷◌, Option,
  none, some, if◌then◌else◌, any, Result, ok, err, ◌>>=◌, suc, zero, arith, All, bind-eq-ok,
  Bool-cases, inl, inr,
}
use reveille.Text.{
  Text, utf8_width, lower, to_ascii_lowercase, eq_ignore_ascii_case, text_eq_iff, Bytes, codes,
  starts_with, is_some, text_eq,
}
use reveille.Text.Split.{split}
use reveille.MapIndex.{slashed, extension}
use reveille.Content.Archive.{
  ArchiveError, ArchiveEntry, archive_entry, unreadable, ArchiveMap, leaves_root, windows_absolute,
  is_parent, is_program, invalid_entry_path, forbidden_entry, invalid_zip, validate_entry_path,
  inspect_file, inspect_entry, inspect_entries, inspect_archive, push_map,
}

-- The depth below the root after walking a path's components, none once it is left.
walk_up : ℕ → Option ℕ
walk_up zero = none
walk_up (suc depth) = some depth

step : ℕ → Text → Option ℕ
unfolding walk_up
step depth component =
    if text_eq component (codes "..")
    then walk_up depth
    else if text_eq component (codes ".") || text_eq component []
    then some depth
    else some (suc depth)

-- The walk goes on from the depth, if there is one.
unfoldable walk : Option ℕ → List Text → Option ℕ
unfolding step
walk none components = none
walk (some depth) [] = some depth
walk (some depth) (c ∷ components) = walk (step depth c) components

abbrev pub stays_inside : Text → Bool
unfolding walk
stays_inside path = is_some (walk (some 0) (split b'/' path))

-- No drive letter, or any other ASCII character, with a colon at the start.
abbrev pub HasNoDrive : Text → Type 0
HasNoDrive path = (drive : ℕ) (rest : Text) → drive < 128 → path ≢ drive ∷ b':' ∷ rest

-- An entry that extraction keeps below the root, and a file whose extension, in lower case, is
-- neither `exe` nor `dll`.
pub data IsSafe : ArchiveEntry → Type 0 where
  safe :
      (name : Text) (is_dir : Bool) (bytes : Bytes)
      → starts_with (codes "/") (slashed name) ≡ false
      → HasNoDrive (slashed name)
      → stays_inside (slashed name) ≡ true
      → (is_dir ≡ false
          → OnSome
              (λ e. (to_ascii_lowercase e ≢ codes "exe") × (to_ascii_lowercase e ≢ codes "dll"))
              (extension (slashed name)))
      → IsSafe (archive_entry name is_dir bytes)

windows_absolute-HasNoDrive : (path : Text) → windows_absolute path ≡ false → HasNoDrive path
unfolding utf8_width
windows_absolute-HasNoDrive path h drive rest ascii e =
    let narrow : ltb drive 128 ≡ true = ground (arith, ascii) in cc (rw narrow at (rw e at h))

eq_ignore_ascii_case-ne :
    (e wanted : Text)
    → eq_ignore_ascii_case e wanted ≡ false
    → to_ascii_lowercase e ≢ to_ascii_lowercase wanted
unfolding eq_ignore_ascii_case
eq_ignore_ascii_case-ne e wanted h same =
    cc (h, (text_eq_iff (to_ascii_lowercase e) (to_ascii_lowercase wanted)).1 same)

is_program-extension :
    (o : Option Text)
    → is_program o ≡ false
    → OnSome (λ e. (to_ascii_lowercase e ≢ codes "exe") × (to_ascii_lowercase e ≢ codes "dll")) o
unfolding lower
is_program-extension none h = tt
is_program-extension (some e) h = (
  eq_ignore_ascii_case-ne e (codes "exe") (ground (arith, h)),
  eq_ignore_ascii_case-ne e (codes "dll") (ground (arith, h)),
)

step-down : (depth : ℕ) (c : Text) → is_parent c ≡ false → (next : ℕ) × (step depth c ≡ some next)
unfolding step
step-down depth c h = elim (Bool-cases (text_eq c (codes ".") || text_eq c [])) [
  | inl stay ↦ (depth, rw h (rw stay refl))
  | inr down ↦ (suc depth, rw h (rw down refl))
]

walk-down :
    (depth : ℕ) (components : List Text)
    → any is_parent components ≡ false
    → is_some (walk (some depth) components) ≡ true
unfolding walk
walk-down depth [] h = refl
walk-down depth (c ∷ components) h =
    let (next, e) = step-down depth c (ground arith) in
    ap (λ d. is_some (walk d components)) e ∙ walk-down next components (ground arith)

err-ok :
    {A : Type 0} {a : A} (e : ArchiveError) → ◌≡◌ {A = Result ArchiveError A} (err e) (ok a) → ⊥
err-ok e h = cc

forbidden :
    (name : Text) (bytes : Bytes)
    → is_program (extension (slashed name)) ≡ true
    → inspect_file name bytes ≡ err (forbidden_entry name)
forbidden name bytes h = rw h refl

-- A file that gets through is no program.
file-program :
    (name : Text) (is_dir : Bool) (bytes : Bytes) {found : Option ArchiveMap}
    → (if is_dir then ok none else inspect_file name bytes) ≡ ok found
    → is_dir ≡ false
    → is_program (extension (slashed name)) ≡ false
file-program name true bytes h e = ground arith
file-program name false bytes h e = elim (Bool-cases (is_program (extension (slashed name)))) [
  | inl bad ↦ absurd (err-ok (forbidden_entry name) (sym (forbidden name bytes bad) ∙ h))
  | inr good ↦ good
]

valid_path :
    (name : Text) {u : Unit} → validate_entry_path name ≡ ok u → leaves_root (slashed name) ≡ false
unfolding validate_entry_path
valid_path name h = elim (Bool-cases (leaves_root (slashed name))) [
  | inl bad ↦ absurd (err-ok (invalid_entry_path name) (sym (rw bad refl) ∙ h))
  | inr good ↦ good
]

inspect_entry-IsSafe :
    (entry : ArchiveEntry) {found : Option ArchiveMap}
    → inspect_entry entry ≡ ok found
    → IsSafe entry
unfolding inspect_entry validate_entry_path walk
inspect_entry-IsSafe unreadable h = absurd (err-ok invalid_zip h)
inspect_entry-IsSafe (archive_entry name is_dir bytes) h =
    let file : Result ArchiveError (Option ArchiveMap) =
      if is_dir then ok none else inspect_file name bytes in
    let (valid, inside, rest) = bind-eq-ok (validate_entry_path name) (λ _. file) h in
    let stays = valid_path name inside in
    safe name is_dir bytes (ground (arith, stays))
      (windows_absolute-HasNoDrive (slashed name) (ground (arith, stays)))
      (walk-down 0 (split b'/' (slashed name)) (ground (arith, stays)))
      (λ e. is_program-extension (extension (slashed name)) (file-program name is_dir bytes rest e))

-- In a package that passes the inspection no entry's path is absolute or starts with a drive, no
-- path leaves the folder on the way through its components, and no file has the extension `exe` or
-- `dll` in any case.
pub inspect_archive-IsSafe :
    (entries : List ArchiveEntry) {maps : List ArchiveMap}
    → inspect_archive (some entries) ≡ ok maps
    → All IsSafe entries
unfolding inspect_archive inspect_entries
inspect_archive-IsSafe [] h = tt
inspect_archive-IsSafe (entry ∷ rest) h =
    let (found, e, later) =
      bind-eq-ok (inspect_entry entry)
        (λ found. inspect_entries rest >>= λ maps. ok (push_map found maps)) h in
    let (maps, m, last) =
      bind-eq-ok (inspect_entries rest) (λ maps. ok (push_map found maps)) later in
    (inspect_entry-IsSafe entry e, inspect_archive-IsSafe rest m)
