-- ===== src/Preflight/Coverage.antt =====
-- Every map of the rotation has a result, found by its key, and no key has two.
use reveille.Prelude.{
  ◌≡◌, refl, ap, sym, ◌∙◌, Bool, true, false, ◌||◌, List, [], ◌∷◌, Option, none, some, arith,
  if◌then◌else◌, any, All, find, inl, inr, Bool-cases,
}
use reveille.Text.{Text, text_eq, text_eq_iff, text_eq_refl}
use reveille.MapIndex.{MapIndex, map_key, lookup_key, index_get}
use reveille.Preflight.{
  PublishedChecksum, MapStatus, MapResult, same_key, seen_key, distinct, is_new, now_seen,
  map_status, status_of, check,
}
use reveille.Preflight.Counts.{results, maps-check}

same_key-eq : (a b : Option Text) → same_key a b ≡ true → a ≡ b
same_key-eq none none h = refl
same_key-eq none (some b) h = cc
same_key-eq (some a) none h = cc
same_key-eq (some a) (some b) h = ap some ((text_eq_iff a b).0 h)

-- The status depends on the key alone.
pub status_of-eq_of_key :
    (index : MapIndex) (published : Option PublishedChecksum) (a b : Text)
    → map_key a ≡ map_key b
    → status_of index published a ≡ status_of index published b
unfolding status_of index_get
status_of-eq_of_key index none a b h =
    ap (λ (k : Option Text). map_status (lookup_key index.maps k) none) h
status_of-eq_of_key index (some p) a b h =
    ap
      (λ (k : Option Text).
        map_status (lookup_key index.maps k)
          (if same_key (map_key p.map) k then some p.checksum else none))
      h

-- A result of the key.
abbrev pub has_key : Option Text → MapResult → Bool
has_key key r = same_key (map_key r.map) key

pub data FoundAs (status : MapStatus) : Option MapResult → Type 0 where
  found : (r : MapResult) → r.status ≡ status → FoundAs status (some r)

same_key_refl : (key : Text) → same_key (some key) (some key) ≡ true
same_key_refl key = text_eq_refl key

seen_key-now_seen :
    (key : Text) (o : Option Text) (seen : List Text)
    → seen_key key seen ≡ false
    → same_key o (some key) ≡ false
    → seen_key key (now_seen o seen) ≡ false
seen_key-now_seen key none seen s h = s
seen_key-now_seen key (some k) seen s h = ground arith

-- With no result of the key at the head, it is looked for behind.
find-distinct_ne :
    (index : MapIndex) (published : Option PublishedChecksum) (key n : Text) (b : Bool)
    (later : List Text)
    → same_key (map_key n) (some key) ≡ false
    → find (has_key (some key)) (results index published (if b then n ∷ later else later))
      ≡ find (has_key (some key)) (results index published later)
find-distinct_ne index published key n true later h = rw h
find-distinct_ne index published key n false later h = refl

find-distinct_eq :
    (index : MapIndex) (published : Option PublishedChecksum) (key n : Text) (b : Bool)
    (later : List Text)
    → same_key (map_key n) (some key) ≡ true
    → b ≡ true
    → find (has_key (some key)) (results index published (if b then n ∷ later else later))
      ≡ some (record { map = n; status = status_of index published n })
find-distinct_eq index published key n true later h e = rw h
find-distinct_eq index published key n false later h e = cc

-- A name of another key is not the name looked for.
not_head :
    (n name key : Text) {rest : Bool}
    → map_key name ≡ some key
    → same_key (map_key n) (some key) ≡ false
    → (text_eq n name || rest) ≡ true
    → rest ≡ true
not_head n name key k other m = elim (Bool-cases (text_eq n name)) [
  | inl same ↦ let e = (text_eq_iff n name).0 same in cc (rw e at other, k, same_key_refl key)
  | inr no_match ↦ rw no_match at m
]

find_result :
    (index : MapIndex) (published : Option PublishedChecksum) (name key : Text)
    (names seen : List Text)
    → map_key name ≡ some key
    → seen_key key seen ≡ false
    → any (λ n. text_eq n name) names ≡ true
    → FoundAs
        (status_of index published name)
        (find (has_key (some key)) (results index published (distinct seen names)))
unfolding distinct
find_result index published name key [] seen k s m = cc
find_result index published name key (n ∷ names) seen k s m =
    let later = distinct (now_seen (map_key n) seen) names in
    elim (Bool-cases (same_key (map_key n) (some key))) [
      | inl same ↦
          let e = same_key-eq (map_key n) (some key) same in
          rw
            (find-distinct_eq index published key n (is_new (map_key n) seen) later same
              (rw e (ground (arith, s))))
            (found _ (status_of-eq_of_key index published n name (e ∙ sym k)))
      | inr other ↦
          rw (find-distinct_ne index published key n (is_new (map_key n) seen) later other) (
            find_result index published name key names (now_seen (map_key n) seen) k
              (seen_key-now_seen key (map_key n) seen s other) (not_head n name key k other m))
    ]

-- Each map of the rotation that has a key has a result, found by that key, with the status of the
-- local content under the key.
pub check-FoundAs :
    (index : MapIndex) (rotation : List Text) (published : Option PublishedChecksum)
    (name key : Text)
    → map_key name ≡ some key
    → any (λ n. text_eq n name) rotation ≡ true
    → FoundAs
        (status_of index published name)
        (find (has_key (some key)) (check index rotation published).maps)
check-FoundAs index rotation published name key k m =
    rw (maps-check index rotation published)
      (find_result index published name key rotation [] k refl m)

-- No result has the key.
abbrev pub IsFresh : Text → List MapResult → Type 0
IsFresh key = All (λ r. has_key (some key) r ≡ false)

-- The key of a result is that of no later one.
abbrev pub HaveDistinctKeys : List MapResult → Type 0
HaveDistinctKeys [] = Unit
HaveDistinctKeys (r ∷ rs) =
    ((key : Text) → map_key r.map ≡ some key → IsFresh key rs) × HaveDistinctKeys rs

new_ne_seen :
    (o : Option Text) (key : Text) (seen : List Text)
    → is_new o seen ≡ true
    → seen_key key seen ≡ true
    → same_key o (some key) ≡ false
new_ne_seen none key seen n s = refl
new_ne_seen (some k) key seen n s = elim (Bool-cases (text_eq k key)) [
  | inl same ↦ cc (rw ((text_eq_iff k key).0 same) at n, s)
  | inr other ↦ other
]

seen_after :
    (o : Option Text) (key : Text) (seen : List Text)
    → seen_key key seen ≡ true
    → seen_key key (now_seen o seen) ≡ true
seen_after none key seen s = s
seen_after (some k) key seen s = ground arith

IsFresh-if :
    (index : MapIndex) (published : Option PublishedChecksum) (key n : Text) (b : Bool)
    (later : List Text)
    → (b ≡ true → same_key (map_key n) (some key) ≡ false)
    → IsFresh key (results index published later)
    → IsFresh key (results index published (if b then n ∷ later else later))
IsFresh-if index published key n true later h f = (h refl, f)
IsFresh-if index published key n false later h f = f

IsFresh-distinct :
    (index : MapIndex) (published : Option PublishedChecksum) (key : Text) (names seen : List Text)
    → seen_key key seen ≡ true
    → IsFresh key (results index published (distinct seen names))
unfolding distinct
IsFresh-distinct index published key [] seen s = tt
IsFresh-distinct index published key (n ∷ names) seen s =
    IsFresh-if index published key n (is_new (map_key n) seen)
      (distinct (now_seen (map_key n) seen) names) (λ e. new_ne_seen (map_key n) key seen e s)
      (IsFresh-distinct index published key names (now_seen (map_key n) seen)
        (seen_after (map_key n) key seen s))

HaveDistinctKeys-if :
    (index : MapIndex) (published : Option PublishedChecksum) (n : Text) (b : Bool)
    (later : List Text)
    → ((key : Text) → map_key n ≡ some key → IsFresh key (results index published later))
    → HaveDistinctKeys (results index published later)
    → HaveDistinctKeys (results index published (if b then n ∷ later else later))
HaveDistinctKeys-if index published n true later f d = (f, d)
HaveDistinctKeys-if index published n false later f d = d

HaveDistinctKeys-distinct :
    (index : MapIndex) (published : Option PublishedChecksum) (names seen : List Text)
    → HaveDistinctKeys (results index published (distinct seen names))
unfolding distinct
HaveDistinctKeys-distinct index published [] seen = tt
HaveDistinctKeys-distinct index published (n ∷ names) seen =
    HaveDistinctKeys-if index published n (is_new (map_key n) seen)
      (distinct (now_seen (map_key n) seen) names)
      (λ key e.
        IsFresh-distinct index published key names (now_seen (map_key n) seen)
          (rw e (ground (arith, text_eq_refl key))))
      (HaveDistinctKeys-distinct index published names (now_seen (map_key n) seen))

-- No two results are of one key, so a map that the rotation repeats is counted once.
pub check-HaveDistinctKeys :
    (index : MapIndex) (rotation : List Text) (published : Option PublishedChecksum)
    → HaveDistinctKeys (check index rotation published).maps
check-HaveDistinctKeys index rotation published =
    rw (maps-check index rotation published) (HaveDistinctKeys-distinct index published rotation [])
