-- ===== src/Content/PakRadar/Effective.antt =====
-- The package of a manifest that the engine would load.
use reveille.Prelude.{
  ℕ, ◌≡◌, refl, ap, false, List, [], ◌∷◌, ◌++◌, Option, none, some, All, reverse, Result, ok, err,
  OnOk, OnOk-chain, inl, inr, Bool-cases, ◌>>=◌,
}
use reveille.Text.{Text, Bytes, text_eq, text_eq_iff}
use reveille.Content.PakRadar.{PakRadarError, PakRadarEntry}
use reveille.Content.PakRadar.Package.{
  HttpUrl, package_filename, Listing, not_found, unreadable, listed, PakRadarPackageStatus, missing,
  current, outdated, named_file, Found, found_in, search_from, numbered, effective_package,
  status_of_found, entry_status,
}

-- A directory without the file: it is not there, or lists no file of the name.
abbrev pub Lacks : Text → ℕ × Listing → Type 0
Lacks filename (place, not_found) = Unit
Lacks filename (place, unreadable message) = ⊥
Lacks filename (place, listed files) = named_file filename files ≡ none

-- Where a search ends: with the file of one directory that none before it has, or without any.
abbrev pub IsFound : Text → List (ℕ × Listing) → Option (ℕ × Text × Result Text Bytes) → Type 0
IsFound filename directories none = All (Lacks filename) directories
IsFound filename directories (some (place, name, content)) =
    (higher : List (ℕ × Listing)) × (lower : List (ℕ × Listing)) × (files : List
      (Text × Result Text Bytes))
    × (directories ≡ higher ++ ((place, listed files) ∷ lower))
    × All (Lacks filename) higher
    × (named_file filename files ≡ some (name, content))

IsFound-cons :
    (filename : Text) (d : ℕ × Listing) (rest : List (ℕ × Listing))
    (o : Option (ℕ × Text × Result Text Bytes))
    → Lacks filename d
    → IsFound filename rest o
    → IsFound filename (d ∷ rest) o
IsFound-cons filename d rest none l f = (l, f)
IsFound-cons filename d rest (some (place, name, content)) l (higher, lower, files, e, h, n) =
    (d ∷ higher, lower, files, ap (◌∷◌ d) e, (l, h), n)

OnOk-cons :
    (filename : Text) (d : ℕ × Listing) (rest : List (ℕ × Listing)) (r : Found)
    → Lacks filename d
    → OnOk (IsFound filename rest) r
    → OnOk (IsFound filename (d ∷ rest)) r
OnOk-cons filename d rest (ok o) l h = IsFound-cons filename d rest o l h
OnOk-cons filename d rest (err e) l h = tt

search_from-IsFound :
    (filename : Text) (directories : List (ℕ × Listing))
    → OnOk (IsFound filename directories) (search_from filename directories)
unfolding search_from
search_from-IsFound filename [] = tt
search_from-IsFound filename ((place, not_found) ∷ rest) =
    OnOk-cons filename (place, not_found) rest (search_from filename rest) tt
      (search_from-IsFound filename rest)
search_from-IsFound filename ((place, unreadable message) ∷ rest) = tt
search_from-IsFound filename ((place, listed files) ∷ rest) =
    by_name (named_file filename files) refl (search_from-IsFound filename rest)
  where
    by_name :
        (o : Option (Text × Result Text Bytes))
        → named_file filename files ≡ o
        → OnOk (IsFound filename rest) (search_from filename rest)
        → OnOk
            (IsFound filename ((place, listed files) ∷ rest))
            (found_in place o (search_from filename rest))
    by_name none e ih =
        OnOk-cons filename (place, listed files) rest (search_from filename rest) e ih
    by_name (some (name, content)) e ih = ([], rest, files, refl, tt, e)

module _ (parse_url : Text → Option HttpUrl) (md5 : Bytes → Bytes) (entry : PakRadarEntry) where
  -- The engine's copy: the file of its name in the directory with the highest precedence that has
  -- one.
  abbrev pub Loads : Text → List Listing → ℕ × Text → Bytes → Type 0
  Loads filename directories (place, name) bytes =
      IsFound filename (reverse (numbered 0 directories)) (some (place, name, ok bytes))

  -- What a status tells of the directories, which stand in the order of their precedence, the
  -- lowest first.
  abbrev pub Tells : List Listing → PakRadarPackageStatus → Type 0
  Tells directories missing =
      (filename : Text) × (package_filename parse_url entry.url ≡ ok filename)
      × All (Lacks filename) (reverse (numbered 0 directories))
  Tells directories (current path) =
      (filename : Text) × (bytes : Bytes) × (package_filename parse_url entry.url ≡ ok filename)
      × Loads filename directories path bytes
      × (md5 bytes ≡ entry.md5)
  Tells directories (outdated path) =
      (filename : Text) × (bytes : Bytes) × (package_filename parse_url entry.url ≡ ok filename)
      × Loads filename directories path bytes
      × (text_eq (md5 bytes) entry.md5 ≡ false)

  status_of_found-Tells :
      (filename : Text) (directories : List Listing) (found : Option (ℕ × Text × Result Text Bytes))
      → package_filename parse_url entry.url ≡ ok filename
      → IsFound filename (reverse (numbered 0 directories)) found
      → OnOk (Tells directories) (status_of_found parse_url md5 entry found)
  status_of_found-Tells filename directories none p f = (filename, p, f)
  status_of_found-Tells filename directories (some (place, name, err message)) p f = tt
  status_of_found-Tells filename directories (some (place, name, ok bytes)) p f =
      elim (Bool-cases (text_eq (md5 bytes) entry.md5)) [
        | inl same ↦ rw same (filename, bytes, p, f, (text_eq_iff (md5 bytes) entry.md5).0 same)
        | inr other ↦ rw other (filename, bytes, p, f, other)
      ]

  -- The status of a package, where it is not an error: it is missing if no search directory has a
  -- file of its name; else the file of the highest precedence that has the name is current if its
  -- MD5 is the published one, and outdated if not.
  pub entry_status-Tells :
      (directories : List Listing)
      → OnOk (Tells directories) (entry_status parse_url md5 entry directories)
  unfolding entry_status effective_package
  entry_status-Tells directories = by_name (package_filename parse_url entry.url) refl
    where
      by_name :
          (r : Result PakRadarError Text)
          → package_filename parse_url entry.url ≡ r
          → OnOk (Tells directories) (
              r >>= λ filename. effective_package filename directories >>= λ found.
              status_of_found parse_url md5 entry found)
      by_name (err e) p = tt
      by_name (ok filename) p =
          OnOk-chain (IsFound filename (reverse (numbered 0 directories))) (Tells directories)
            (effective_package filename directories) _
            (search_from-IsFound filename (reverse (numbered 0 directories)))
            (λ found f. status_of_found-Tells filename directories found p f)
