-- ===== src/Preflight/Counts.antt =====
-- The verdict against the results that stand beside it.
use mathlib.Core.Path.{ap₂}
use reveille.Prelude.{
  ℕ, ◌+◌, ◌≡◌, refl, ap, sym, ◌∙◌, Bool, true, false, List, [], ◌∷◌, Option, arith, if◌then◌else◌,
  All, ◌↔◌,
}
use reveille.Text.{Text}
use reveille.MapIndex.{MapIndex}
use reveille.Preflight.{
  PublishedChecksum, MapStatus, present, checksum_differs, absent, MapResult, compatible, status_of,
  distinct, check_maps, verdict_of, check, count_absent, count_mismatch,
}

abbrev pub is_absent : MapStatus → Bool
is_absent absent = true
is_absent _ = false

abbrev pub is_mismatch : MapStatus → Bool
is_mismatch (checksum_differs local server) = true
is_mismatch _ = false

-- How many results have a status of a kind.
abbrev pub count : (MapStatus → Bool) → List MapResult → ℕ
count p [] = 0
count p (r ∷ rs) = (if p r.status then 1 else 0) + count p rs

-- The results of a check, one by one.
abbrev pub results : MapIndex → Option PublishedChecksum → List Text → List MapResult
results index published [] = []
results index published (name ∷ rest) =
    record { map = name; status = status_of index published name } ∷ results index published rest

pub maps-check_maps :
    (index : MapIndex) (published : Option PublishedChecksum) (names : List Text) (a m : ℕ)
    → (check_maps index published names a m).maps ≡ results index published names
unfolding check_maps
maps-check_maps index published [] a m = refl
maps-check_maps index published (name ∷ rest) a m =
    ap (◌∷◌ (record { map = name; status = status_of index published name })) (
      maps-check_maps index published rest (count_absent (status_of index published name) a)
        (count_mismatch (status_of index published name) m))

count_absent-count :
    (s : MapStatus) (a n : ℕ) → count_absent s a + n ≡ a + ((if is_absent s then 1 else 0) + n)
count_absent-count s a n = ground arith

count_mismatch-count :
    (s : MapStatus) (a n : ℕ) → count_mismatch s a + n ≡ a + ((if is_mismatch s then 1 else 0) + n)
count_mismatch-count s a n = ground arith

absent-check_maps :
    (index : MapIndex) (published : Option PublishedChecksum) (names : List Text) (a m : ℕ)
    → (check_maps index published names a m).absent
      ≡ a + count is_absent (results index published names)
unfolding check_maps
absent-check_maps index published [] a m = omega arith
absent-check_maps index published (name ∷ rest) a m =
    let s = status_of index published name in
    absent-check_maps index published rest (count_absent s a) (count_mismatch s m)
    ∙ count_absent-count s a (count is_absent (results index published rest))

mismatches-check_maps :
    (index : MapIndex) (published : Option PublishedChecksum) (names : List Text) (a m : ℕ)
    → (check_maps index published names a m).mismatches
      ≡ m + count is_mismatch (results index published names)
unfolding check_maps
mismatches-check_maps index published [] a m = omega arith
mismatches-check_maps index published (name ∷ rest) a m =
    let s = status_of index published name in
    mismatches-check_maps index published rest (count_absent s a) (count_mismatch s m)
    ∙ count_mismatch-count s m (count is_mismatch (results index published rest))

pub maps-check :
    (index : MapIndex) (rotation : List Text) (published : Option PublishedChecksum)
    → (check index rotation published).maps ≡ results index published (distinct [] rotation)
unfolding check
maps-check index rotation published = maps-check_maps index published (distinct [] rotation) 0 0

-- The two numbers of a verdict are the numbers of absent maps and of mismatches among the results,
-- and the verdict is that nothing is wrong exactly when both are 0.
pub verdict-check :
    (index : MapIndex) (rotation : List Text) (published : Option PublishedChecksum)
    → (check index rotation published).verdict
      ≡ verdict_of
          (count is_absent (check index rotation published).maps)
          (count is_mismatch (check index rotation published).maps)
unfolding check
verdict-check index rotation published =
    let names = distinct [] rotation in
    rw (maps-check_maps index published names 0 0) (
      ground (
        arith,
        absent-check_maps index published names 0 0,
        mismatches-check_maps index published names 0 0,
      ))

abbrev pub is_present : MapStatus → Bool
is_present (present checksum checked) = true
is_present _ = false

present_of : (s : MapStatus) → is_absent s ≡ false → is_mismatch s ≡ false → is_present s ≡ true
present_of s a m = ground arith

verdict-zeros : (a m : ℕ) → verdict_of a m ≡ compatible → (a ≡ 0) × (m ≡ 0)
verdict-zeros a m h = ground arith

abbrev pub AllPresent : List MapResult → Type 0
AllPresent = All (λ r. is_present r.status ≡ true)

AllPresent-counts :
    (rs : List MapResult) → count is_absent rs ≡ 0 → count is_mismatch rs ≡ 0 → AllPresent rs
AllPresent-counts [] a m = tt
AllPresent-counts (r ∷ rs) a m =
    (ground (arith, present_of r.status), AllPresent-counts rs (ground arith) (ground arith))

counts-AllPresent :
    (rs : List MapResult) → AllPresent rs → (count is_absent rs ≡ 0) × (count is_mismatch rs ≡ 0)
counts-AllPresent [] h = (refl, refl)
counts-AllPresent (r ∷ rs) h = ground (arith, h.0, counts-AllPresent rs h.1)

-- Nothing is found wrong exactly when every result is a present map.
pub compatible-check :
    (index : MapIndex) (rotation : List Text) (published : Option PublishedChecksum)
    → ((check index rotation published).verdict ≡ compatible)
      ↔ AllPresent (check index rotation published).maps
compatible-check index rotation published =
    let rs = (check index rotation published).maps in
    (
      (λ h.
          let zeros =
            verdict-zeros (count is_absent rs) (count is_mismatch rs)
              (sym (verdict-check index rotation published) ∙ h) in
          AllPresent-counts rs zeros.0 zeros.1),
      λ h.
          let (a, m) = counts-AllPresent rs h in
          verdict-check index rotation published ∙ ap₂ verdict_of a m,
    )
