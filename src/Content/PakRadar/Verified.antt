-- ===== src/Content/PakRadar/Verified.antt =====
-- What a package's download leaves in the staging directory.
use reveille.Prelude.{
  ℕ, zero, suc, ◌+◌, ◌<◌, ◌≡◌, refl, subst, false, List, Option, none, some, length, Result, ok,
  err, OnOk, OnOk-chain, OnOk-bind, arith, inl, inr, Bool-cases, ok_or, opt_filter, and_then,
  get_last?, not,
}
use reveille.Text.{Text, Bytes, text_eq, text_eq_iff, is_empty}
use reveille.Retry.{attempts, wait_before_retry}
use reveille.Retry.Bounded.{get_elem?-length}
use reveille.Content.Archive.{ArchiveError, validate_package_filename}
use reveille.Content.Archive.Install.{Folder, exists_file, persist}
use reveille.Content.PakRadar.{PakRadarError, PakRadarEntry, is_transient, show_md5}
use reveille.Content.PakRadar.Package.{
  HttpUrl, safe_package, validate_http_url, package_filename, Response, Disk, Downloaded, staged,
  checked_status, unbroken, body_bytes, checked_digest, free_name, download_checked, folder_after,
  after_attempt, download_loop, download_package,
}

HasSafeName : Text → Type 0
HasSafeName filename = validate_package_filename filename ≡ ok tt

module _ (parse_url : Text → Option HttpUrl) (md5 : Bytes → Bytes) where
  pub package_filename-OnOk :
      (url : Text)
      → OnOk
          (λ filename. validate_package_filename filename ≡ ok tt)
          (package_filename parse_url url)
  unfolding package_filename
  package_filename-OnOk url = OnOk-bind Safe (validate_http_url parse_url url) _ (λ parsed.
      OnOk-bind Safe
        (ok_or (opt_filter (λ name. not (is_empty name)) (and_then parsed.segments get_last?)) _) _
        (λ filename. checked filename (validate_package_filename filename) refl))
    where
      Safe : Text → Type 0
      Safe filename = validate_package_filename filename ≡ ok tt

      checked :
          (filename : Text) (r : Result ArchiveError Unit)
          → validate_package_filename filename ≡ r
          → OnOk Safe (safe_package filename r)
      checked filename (ok u) e = e
      checked filename (err x) e = tt

  -- A package that was staged: its digest is the one that the server published, and its name is
  -- safe and was free.
  pub record IsVerified (entry : PakRadarEntry) (folder : Folder) (d : Downloaded) : Type 0 where
    pub digest : md5 d.bytes ≡ entry.md5
    pub safe : validate_package_filename d.filename ≡ ok tt
    pub free : exists_file folder d.filename ≡ false
    pub recorded : d.verified_md5 ≡ show_md5 entry.md5

  checked_digest-OnOk :
      (entry : PakRadarEntry) (bytes : Bytes)
      → OnOk (λ b. md5 b ≡ entry.md5) (checked_digest parse_url md5 entry bytes)
  checked_digest-OnOk entry bytes = elim (Bool-cases (text_eq (md5 bytes) entry.md5)) [
    | inl same ↦ rw same ((text_eq_iff (md5 bytes) entry.md5).0 same)
    | inr other ↦ rw other tt
  ]

  free_name-OnOk :
      (folder : Folder) (filename : Text)
      → OnOk (λ u. exists_file folder filename ≡ false) (free_name folder filename)
  free_name-OnOk folder filename = elim (Bool-cases (exists_file folder filename)) [
    | inl taken ↦ rw taken tt
    | inr free ↦ rw free refl
  ]

  download_checked-IsVerified :
      (disk : Disk) (entry : PakRadarEntry) (folder : Folder)
      (answer : Result PakRadarError Response)
      → OnOk (IsVerified entry folder) (download_checked parse_url md5 disk entry folder answer)
  unfolding download_checked
  download_checked-IsVerified disk entry folder answer =
      let P : Downloaded → Type 0 = IsVerified entry folder in
      OnOk-chain (λ filename. validate_package_filename filename ≡ ok tt) P
        (package_filename parse_url entry.url) _ (package_filename-OnOk entry.url)
        (λ filename safe. OnOk-bind P answer _ (λ response.
          OnOk-bind P (checked_status response) _ (λ success.
            OnOk-bind P (unbroken response.broken (body_bytes response.chunks)) _ (λ body.
              OnOk-chain (λ b. md5 b ≡ entry.md5) P (checked_digest parse_url md5 entry body) _
                (checked_digest-OnOk entry body)
                (λ bytes same. OnOk-bind P (staged disk.create_dir) _ (λ a.
                  OnOk-bind P (staged disk.new_file) _ (λ b. OnOk-bind P (staged disk.write) _ (λ c.
                    OnOk-chain (λ u. exists_file folder filename ≡ false) P
                      (free_name folder filename) _ (free_name-OnOk folder filename)
                      (λ u free. OnOk-bind P (staged disk.rename) _ (λ r. record {
                        digest = same;
                        safe = safe;
                        free = free;
                        recorded = refl;
                      }))))))))))

  module _ (entry : PakRadarEntry) (folder : Folder) where
    -- The directory after a success has one file more, and after a failure it is as it was.
    abbrev pub Leaves : Result PakRadarError Downloaded × Folder → Type 0
    Leaves (err e, left) = left ≡ folder
    Leaves (ok d, left) = IsVerified entry folder d × (left ≡ persist folder d.filename d.bytes)

    folder_after-Leaves :
        (r : Result PakRadarError Downloaded)
        → OnOk (IsVerified entry folder) r
        → Leaves (r, folder_after parse_url md5 folder r)
    folder_after-Leaves (err e) h = refl
    folder_after-Leaves (ok d) h = (h, refl)

    module _ (disks : ℕ → Disk) (answers : ℕ → Result PakRadarError Response)
        (delays : List ℕ) where
      Ended : Option (Result PakRadarError Downloaded × Folder) → Type 0
      Ended out =
          (left : Result PakRadarError Downloaded × Folder) × (out ≡ some left) × Leaves left

      after_attempt-Ended :
          (number : ℕ) (r : Result PakRadarError Downloaded) (left : Folder)
          (rest : Option (Result PakRadarError Downloaded × Folder))
          → Leaves (r, left)
          → (number < length delays → left ≡ folder → Ended rest)
          → Ended (after_attempt parse_url md5 disks answers delays number r left rest)
      unfolding Ended
      after_attempt-Ended number (ok d) left rest h again = ((ok d, left), refl, h)
      after_attempt-Ended number (err e) left rest h again =
          elim (Bool-cases (wait_before_retry delays number (is_transient e))) [
            | inl due ↦ rw due (
                again
                  (let bound = get_elem?-length delays number (is_transient e) in
                    ground (arith, bound, due))
                  h)
            | inr over ↦ rw over ((err e, left), refl, h)
          ]

      download_loop-Ended :
          (fuel number : ℕ) (start : Folder)
          → start ≡ folder
          → attempts delays ≡ number + suc fuel
          → Ended (download_loop parse_url md5 disks answers delays entry (suc fuel) number start)
      unfolding download_loop
      download_loop-Ended zero number start same h =
          let r = download_checked parse_url md5 (disks number) entry folder (answers number) in
          rw same (
            after_attempt-Ended number r _ none
              (folder_after-Leaves r
                (download_checked-IsVerified (disks number) entry folder (answers number)))
              (λ due left. absurd (omega (arith, h, due))))
      download_loop-Ended (suc fuel) number start same h =
          let r = download_checked parse_url md5 (disks number) entry folder (answers number) in
          rw same (
            after_attempt-Ended number r _ _
              (folder_after-Leaves r
                (download_checked-IsVerified (disks number) entry folder (answers number)))
              (λ due left. download_loop-Ended fuel (number + 1) _ left (omega (arith, h))))

      -- Every download of a package ends, whatever the network and the disk answer. If it succeeds
      -- it has added one file to the staging directory, under a safe name that was free, whose MD5
      -- is the one that the server published. If it fails, the directory is as it was.
      pub download_package-Leaves :
          (left : Result PakRadarError Downloaded × Folder) × (download_package parse_url md5 disks
              answers delays entry folder
            ≡ some left)
          × Leaves left
      unfolding download_package Ended
      download_package-Leaves =
          let enough : suc (length delays) ≡ attempts delays = omega arith in
          subst
            (λ fuel. Ended (download_loop parse_url md5 disks answers delays entry fuel 0 folder))
            enough (download_loop-Ended (length delays) 0 folder refl (omega arith))
