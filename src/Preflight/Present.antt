-- ===== src/Preflight/Present.antt =====
-- All results are present maps exactly when all maps asked about are.
use reveille.Prelude.{
  ◌≡◌, refl, ap, sym, ◌∙◌, Bool, true, false, List, [], ◌∷◌, Option, none, some, arith,
  if◌then◌else◌, ◌↔◌, All, inl, inr, Bool-cases,
}
use reveille.Text.{Text, text_eq, text_eq_iff}
use reveille.MapIndex.{MapIndex, map_key}
use reveille.Preflight.{PublishedChecksum, seen_key, distinct, is_new, now_seen, status_of, check}
use reveille.Preflight.Counts.{results, maps-check, AllPresent, is_present}
use reveille.Preflight.Coverage.{status_of-eq_of_key}

module _ (index : MapIndex) (published : Option PublishedChecksum) where
  -- The local content has the map, with the published checksum if that is the map's.
  abbrev pub IsPresent : Text → Type 0
  IsPresent name = is_present (status_of index published name) ≡ true

  -- Every map of the keys is present.
  abbrev ArePresentKeys : List Text → Type 0
  ArePresentKeys = All (λ key. (name : Text) → map_key name ≡ some key → IsPresent name)

  ArePresentKeys-seen :
      (key : Text) (seen : List Text) (name : Text)
      → ArePresentKeys seen
      → seen_key key seen ≡ true
      → map_key name ≡ some key
      → IsPresent name
  ArePresentKeys-seen key [] name h s k = cc s
  ArePresentKeys-seen key (other ∷ seen) name h s k = elim (Bool-cases (text_eq other key)) [
    | inl same ↦ h.0 name (k ∙ ap some (sym ((text_eq_iff other key).0 same)))
    | inr apart ↦ ArePresentKeys-seen key seen name h.1 (rw apart at s) k
  ]

  -- A name that passes is present, and one that does not has a key that was seen.
  by_new :
      (name : Text) (o : Option Text) (seen later : List Text) (b : Bool)
      → map_key name ≡ o
      → is_new o seen ≡ b
      → ArePresentKeys seen
      → AllPresent (results index published (if b then name ∷ later else later))
      → IsPresent name
        × ArePresentKeys (now_seen o seen)
        × AllPresent (results index published later)
  by_new name none seen later true k n h a = (a.0, h, a.1)
  by_new name none seen later false k n h a = cc n
  by_new name (some key) seen later true k n h a = (
    a.0,
    ((λ other e. rw (status_of-eq_of_key index published other name (e ∙ sym k)) a.0), h),
    a.1,
  )
  by_new name (some key) seen later false k n h a =
      let here = ArePresentKeys-seen key seen name h (ground (arith, n)) k in
      (
        here,
        ((λ other e. rw (status_of-eq_of_key index published other name (e ∙ sym k)) here), h),
        a,
      )

  distinct-All :
      (names seen : List Text)
      → ArePresentKeys seen
      → AllPresent (results index published (distinct seen names))
      → All IsPresent names
  unfolding distinct
  distinct-All [] seen h a = tt
  distinct-All (name ∷ names) seen h a =
      let later = distinct (now_seen (map_key name) seen) names in
      let (here, keys, rest) =
        by_new name (map_key name) seen later (is_new (map_key name) seen) refl refl h a in
      (here, distinct-All names (now_seen (map_key name) seen) keys rest)

  All-if :
      (name : Text) (later : List Text) (b : Bool)
      → IsPresent name
      → AllPresent (results index published later)
      → AllPresent (results index published (if b then name ∷ later else later))
  All-if name later true h a = (h, a)
  All-if name later false h a = a

  All-distinct :
      (names seen : List Text)
      → All IsPresent names
      → AllPresent (results index published (distinct seen names))
  unfolding distinct
  All-distinct [] seen h = tt
  All-distinct (name ∷ names) seen h =
      All-if name (distinct (now_seen (map_key name) seen) names) (is_new (map_key name) seen) h.0
        (All-distinct names (now_seen (map_key name) seen) h.1)

  -- All results of a check are present maps exactly when every map asked about is present.
  pub AllPresent-check :
      (rotation : List Text)
      → AllPresent (check index rotation published).maps ↔ All IsPresent rotation
  AllPresent-check rotation = (
    (λ a. distinct-All rotation [] tt (rw (maps-check index rotation published) at a)),
    λ h. rw (maps-check index rotation published) (All-distinct rotation [] h),
  )
