-- ===== src/Content/Download/Staged.antt =====
-- What a download leaves in the staging directory.
use reveille.Prelude.{
  ℕ, zero, suc, ◌+◌, ◌<◌, ◌≡◌, refl, sym, subst, ◌∙◌, Bool, true, false, List, [], ◌∷◌, Option,
  none, some, if◌then◌else◌, leb, ◌==◌, ==_iff, length, length-append, Result, ok, err, OnOk, arith,
  inl, inr, Bool-cases,
}
use reveille.Text.{Text, Bytes}
use reveille.Text.Number.{u64_max}
use reveille.Retry.{attempts, wait_before_retry}
use reveille.Retry.Bounded.{get_elem?-length}
use reveille.Content.Archive.{ArchiveError, validate_package_filename}
use reveille.Content.Archive.Install.{Folder, exists_file, persist}
use reveille.Content.Browse.Entry.{MohDbFile}
use reveille.Content.Download.{
  MohDbError, Response, Disk, Received, add_chunk, receive, Downloaded, DownloadProgress, place,
  after_body, opened, after_open, empty_body, download_once, after_attempt, download_loop, download,
  is_transient, staging, if_staged,
}

-- The bytes kept are the bytes counted.
abbrev Counts : Received → Type 0
Counts r = r.count ≡ length r.bytes

if_staged-holds :
    {A : Type 0} (P : A → Type 0) (o : Option Text) (failure : MohDbError → A) (next : A)
    → ((e : MohDbError) → P (failure e))
    → P next
    → P (if_staged o failure next)
if_staged-holds P none failure next f n = n
if_staged-holds P (some message) failure next f n = f (staging message)

if-holds :
    {A : Type 0} (P : A → Type 0) (b : Bool) (x y : A)
    → (b ≡ true → P x)
    → P y
    → P (if b then x else y)
if-holds P true x y h k = h refl
if-holds P false x y h k = k

receive-Counts :
    (disk : Disk) (declared : Option ℕ) (number : ℕ) (r : Received) (chunks : List Bytes)
    (broken : Option MohDbError)
    → Counts r
    → OnOk Counts (receive disk declared number r chunks broken).0
unfolding receive
receive-Counts disk declared number r [] none h = h
receive-Counts disk declared number r [] (some e) h = tt
receive-Counts disk declared number r (chunk ∷ chunks) broken h =
    let P : Result MohDbError Received × List DownloadProgress → Type 0 =
      λ out. OnOk Counts out.0 in
    if_staged-holds P (disk.write number) _ _ (λ e. tt)
      (if-holds P (leb (r.count + length chunk) u64_max) _ _
        (λ fits.
          receive-Counts disk declared (number + 1) (add_chunk disk declared r chunk) chunks broken
            (omega (arith, h, length-append r.bytes chunk)))
        tt)

module _ (file : MohDbFile) (folder : Folder) where
  -- A download that succeeds adds one file to the directory, under a safe name that was free, with
  -- as many bytes as the catalogue published. One that fails leaves the directory as it was.
  abbrev pub Leaves : Result MohDbError Downloaded × Folder → Type 0
  Leaves (err e, left) = left ≡ folder
  Leaves (ok d, left) =
      (validate_package_filename file.filename ≡ ok tt)
      × (d.filename ≡ file.filename)
      × (length d.bytes ≡ file.file_size)
      × (exists_file folder file.filename ≡ false)
      × (left ≡ persist folder file.filename d.bytes)

  module _ (sha256 : Bytes → Bytes) (disk : Disk) where
    place-Leaves :
        (r : Received)
        → validate_package_filename file.filename ≡ ok tt
        → length r.bytes ≡ file.file_size
        → Leaves (place sha256 disk file folder r)
    place-Leaves r v size = elim (Bool-cases (exists_file folder file.filename)) [
      | inl taken ↦ rw taken refl
      | inr free ↦ rw free (
          if_staged-holds Leaves disk.rename (λ e. (err e, folder)) _ (λ e. refl)
            (v, refl, size, free, refl))
    ]

    after_body-Leaves :
        (body : Result MohDbError Received)
        → validate_package_filename file.filename ≡ ok tt
        → OnOk Counts body
        → Leaves (after_body sha256 disk file folder body)
    after_body-Leaves (err e) v h = refl
    after_body-Leaves (ok r) v h =
        if_staged-holds Leaves disk.flush (λ e. (err e, folder)) _ (λ e. refl)
          (if-holds Leaves (r.count == file.file_size) _ _
            (λ same. place-Leaves r v (sym h ∙ (==_iff r.count file.file_size).0 same)) refl)

    opened-valid :
        (answer : Result MohDbError Response)
        → OnOk (λ r. validate_package_filename file.filename ≡ ok tt) (opened disk file answer)
    opened-valid answer = by_name (validate_package_filename file.filename) refl
      where
        by_name :
            (r : Result ArchiveError Unit)
            → validate_package_filename file.filename ≡ r
            → OnOk (λ r. validate_package_filename file.filename ≡ ok tt) (opened disk file answer)
        by_name (ok u) e = always (opened disk file answer) e
          where
            always :
                (m : Result MohDbError Response)
                → validate_package_filename file.filename ≡ ok tt
                → OnOk (λ r. validate_package_filename file.filename ≡ ok tt) m
            always (ok r) e = e
            always (err x) e = tt
        by_name (err x) e = rw e tt

    after_open-Leaves :
        (m : Result MohDbError Response)
        → OnOk (λ r. validate_package_filename file.filename ≡ ok tt) m
        → Leaves
            ((after_open sha256 disk file folder m).0, (after_open sha256 disk file folder m).1)
    after_open-Leaves (err e) v = refl
    after_open-Leaves (ok response) v = after_body-Leaves _ v (
        receive-Counts disk response.declared 0 (empty_body response.declared) response.chunks
          response.broken refl)

    download_once-Leaves :
        (answer : Result MohDbError Response)
        → Leaves (
          (download_once sha256 disk file folder answer).0,
          (download_once sha256 disk file folder answer).1,
        )
    unfolding download_once
    download_once-Leaves answer = after_open-Leaves (opened disk file answer) (opened-valid answer)

  module _ (sha256 : Bytes → Bytes) (disks : ℕ → Disk) (answers : ℕ → Result MohDbError Response)
      (delays : List ℕ) where
    -- The loop ended, and left the directory so.
    abbrev Ended : Option (Result MohDbError Downloaded × Folder) → Type 0
    Ended out = (left : Result MohDbError Downloaded × Folder) × (out ≡ some left) × Leaves left

    after_attempt-Ended :
        (number : ℕ) (once : Result MohDbError Downloaded × Folder × List DownloadProgress)
        (rest : Option (Result MohDbError Downloaded × Folder))
        → Leaves (once.0, once.1)
        → (number < length delays → once.1 ≡ folder → Ended rest)
        → Ended (after_attempt sha256 disks answers delays number once rest)
    after_attempt-Ended number (ok d, left, reports) rest h again = ((ok d, left), refl, h)
    after_attempt-Ended number (err e, left, reports) rest h again =
        elim (Bool-cases (wait_before_retry delays number (is_transient e))) [
          | inl due ↦ rw due (
              again
                (let bound = get_elem?-length delays number (is_transient e) in
                  ground (arith, bound, due))
                h)
          | inr over ↦ rw over ((err e, left), refl, h)
        ]

    download_loop-Ended :
        (fuel number : ℕ) (start : Folder)
        → start ≡ folder
        → attempts delays ≡ number + suc fuel
        → Ended (download_loop sha256 disks answers delays file (suc fuel) number start)
    unfolding download_loop
    download_loop-Ended zero number start same h = rw same (
        after_attempt-Ended number _ none
          (download_once-Leaves sha256 (disks number) (answers number))
          (λ due left. absurd (omega (arith, h, due))))
    download_loop-Ended (suc fuel) number start same h = rw same (
        after_attempt-Ended number _ _ (download_once-Leaves sha256 (disks number) (answers number))
          (λ due left. download_loop-Ended fuel (number + 1) _ left (omega (arith, h))))

    -- Every download ends, whatever the network and the disk answer at each attempt. If it
    -- succeeds it has added one file to the staging directory, under the published name, which is
    -- safe and was free, with as many bytes as the catalogue published. If it fails, all its
    -- attempts together have left the directory as it was.
    pub download-Leaves :
        (left : Result MohDbError Downloaded × Folder) × (download sha256 disks answers delays file
            folder
          ≡ some left)
        × Leaves left
    unfolding download
    download-Leaves =
        let enough : suc (length delays) ≡ attempts delays = omega arith in
        subst (λ fuel. Ended (download_loop sha256 disks answers delays file fuel 0 folder)) enough
          (download_loop-Ended (length delays) 0 folder refl (omega arith))
