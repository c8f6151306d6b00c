-- ===== src/Content/Resolve/Ranked.antt =====
-- The outcome for a map: what it is made of, and its order.
use reveille.Prelude.{
  ◌≡◌, refl, sym, ap, ◌∙◌, Bool, true, false, ◌&&◌, List, [], ◌∷◌, length, any, filter, arith,
  Bool-cases, inl, inr,
}
use reveille.Text.{Text}
use reveille.TreeMap.{text_ltb, text_ltb_trans, text_compare_refl}
use reveille.MapIndex.{sort_by, insert_by}
use reveille.Content.Catalogue.{
  WantedMap, CatalogueCandidate, ResolutionOutcome, exact, choice_required, no_source,
}
use reveille.Content.Resolve.{ranks_before, has_key, outcome_of, resolve_candidates}

abbrev pub Candidates : Type 0
Candidates = List CatalogueCandidate

-- The same candidates, each as often, in any order.
abbrev pub Same : Candidates → Candidates → Type 0
Same xs ys = (p : CatalogueCandidate → Bool) → length (filter p xs) ≡ length (filter p ys)

-- None ranks before the one in front of it.
abbrev pub IsRanked : Candidates → Type 0
IsRanked [] = Unit
IsRanked (a ∷ []) = Unit
IsRanked (a ∷ b ∷ rest) = (ranks_before b a ≡ false) × IsRanked (b ∷ rest)

text_ltb_irrefl : (a : Text) → text_ltb a a ≡ false
unfolding text_ltb
text_ltb_irrefl a = rw (text_compare_refl a, text_ltb) refl

text_ltb-asym : (a b : Text) → text_ltb a b ≡ true → text_ltb b a ≡ false
text_ltb-asym a b h = elim (Bool-cases (text_ltb b a)) [
  | inl back ↦ ground (arith, text_ltb_trans a b a h back, text_ltb_irrefl a)
  | inr e ↦ e
]

ranks_before-asym : (a b : CatalogueCandidate) → ranks_before a b ≡ true → ranks_before b a ≡ false
unfolding ranks_before
ranks_before-asym a b h = ground (arith, text_ltb-asym a.filename b.filename)

insert_by-Same :
    (x : CatalogueCandidate) (ys : Candidates) (p : CatalogueCandidate → Bool)
    → length (filter p (insert_by ranks_before x ys)) ≡ length (filter p (x ∷ ys))
unfolding insert_by
insert_by-Same x [] p = refl
insert_by-Same x (y ∷ ys) p = elim (Bool-cases (ranks_before y x)) [
  | inl later ↦ rw later (ground (arith, insert_by-Same x ys p))
  | inr first ↦ rw first refl
]

sort_by-Same : (xs : Candidates) → Same xs (sort_by ranks_before xs)
unfolding sort_by
sort_by-Same [] p = refl
sort_by-Same (x ∷ xs) p =
    ground (arith, insert_by-Same x (sort_by ranks_before xs) p, sort_by-Same xs p)

-- In front of what an insertion leaves stands the new candidate or the old head.
below_head :
    (x y z : CatalogueCandidate) (zs : Candidates)
    → ranks_before x y ≡ false
    → ranks_before z y ≡ false
    → IsRanked (insert_by ranks_before x (z ∷ zs))
    → IsRanked (y ∷ insert_by ranks_before x (z ∷ zs))
unfolding insert_by
below_head x y z zs hx hz r = elim (Bool-cases (ranks_before z x)) [
  | inl later ↦ rw later (hz, (rw later at r))
  | inr first ↦ rw first (hx, (rw first at r))
]

-- A candidate that nothing at the head ranks before stays in front.
insert_by-IsRanked :
    (x : CatalogueCandidate) (ys : Candidates)
    → IsRanked ys
    → IsRanked (insert_by ranks_before x ys)
unfolding insert_by
insert_by-IsRanked x [] h = tt
insert_by-IsRanked x (y ∷ []) h = elim (Bool-cases (ranks_before y x)) [
  | inl later ↦ rw later (ranks_before-asym y x later, tt)
  | inr first ↦ rw first (first, tt)
]
insert_by-IsRanked x (y ∷ z ∷ zs) h = elim (Bool-cases (ranks_before y x)) [
  | inl later ↦
      rw later
        (below_head x y z zs (ranks_before-asym y x later) h.0 (insert_by-IsRanked x (z ∷ zs) h.1))
  | inr first ↦ rw first (first, h)
]

sort_by-IsRanked : (xs : Candidates) → IsRanked (sort_by ranks_before xs)
unfolding sort_by
sort_by-IsRanked [] = tt
sort_by-IsRanked (x ∷ xs) = insert_by-IsRanked x (sort_by ranks_before xs) (sort_by-IsRanked xs)

-- What is said of a map with given candidates. An exact match is the best ranked of the candidates
-- with the map's own key; without one every candidate is offered, in rank order; and there is no
-- source only without candidates.
pub data Resolves (wanted : WantedMap) (candidates : Candidates) : ResolutionOutcome → Type 0 where
  exactly :
      (m : CatalogueCandidate) (alternatives : Candidates)
      → IsRanked (m ∷ alternatives)
      → Same (filter (has_key wanted) candidates) (m ∷ alternatives)
      → Resolves wanted candidates (exact m alternatives)
  asks :
      (c : CatalogueCandidate) (choices : Candidates)
      → any (has_key wanted) candidates ≡ false
      → IsRanked (c ∷ choices)
      → Same candidates (c ∷ choices)
      → Resolves wanted candidates (choice_required (c ∷ choices))
  nothing : candidates ≡ [] → Resolves wanted candidates no_source

filter-both :
    (p q : CatalogueCandidate → Bool) (xs : Candidates)
    → filter p (filter q xs) ≡ filter (λ x. q x && p x) xs
filter-both p q [] = refl
filter-both p q (x ∷ xs) = ground (arith, filter-both p q xs)

-- Filtering keeps lists the same.
filter-Same :
    (q : CatalogueCandidate → Bool) (xs ys : Candidates)
    → Same xs ys
    → Same (filter q xs) (filter q ys)
filter-Same q xs ys h p =
    ap length (filter-both p q xs) ∙ h (λ x. q x && p x) ∙ sym (ap length (filter-both p q ys))

none-any :
    (q : CatalogueCandidate → Bool) (xs : Candidates) → length (filter q xs) ≡ 0 → any q xs ≡ false
none-any q [] h = refl
none-any q (x ∷ xs) h = ground (arith, none-any q xs)

filter_every : (xs : Candidates) → length (filter (λ x. true) xs) ≡ length xs
filter_every [] = refl
filter_every (x ∷ xs) = ground (arith, filter_every xs)

Same-length : (xs ys : Candidates) → Same xs ys → length xs ≡ length ys
Same-length xs ys h = sym (filter_every xs) ∙ h (λ x. true) ∙ filter_every ys

nothing-Same : (xs : Candidates) → Same xs [] → xs ≡ []
nothing-Same [] h = refl
nothing-Same (x ∷ xs) h = ground (arith, h (λ c. true))

outcome_of-Resolves :
    (wanted : WantedMap) (candidates ranked matches : Candidates)
    → Same candidates ranked
    → IsRanked ranked
    → Same (filter (has_key wanted) candidates) matches
    → IsRanked matches
    → Resolves wanted candidates (outcome_of ranked matches)
outcome_of-Resolves wanted candidates ranked (m ∷ rest) s r t q = exactly m rest q t
outcome_of-Resolves wanted candidates [] [] s r t q = nothing (nothing-Same candidates s)
outcome_of-Resolves wanted candidates (c ∷ ranked) [] s r t q =
    asks c ranked
      (none-any (has_key wanted) candidates
        (sym (filter_every (filter (has_key wanted) candidates)) ∙ t (λ x. true)))
      r s

-- A resolution counts all candidates, and its outcome is the exact match, the choices or the lack of
-- a source that the candidates and their ranks call for: only a candidate with the map's own key is
-- ever selected.
pub resolve_candidates-Resolves :
    (wanted : WantedMap) (candidates : Candidates)
    → ((resolve_candidates wanted candidates).hits ≡ length candidates)
      × Resolves wanted candidates (resolve_candidates wanted candidates).outcome
unfolding resolve_candidates
resolve_candidates-Resolves wanted candidates =
    let ranked = sort_by ranks_before candidates in
    let matches = filter (has_key wanted) ranked in
    (
      Same-length ranked candidates (λ p. sym (sort_by-Same candidates p)),
      outcome_of-Resolves wanted candidates ranked (sort_by ranks_before matches)
          (sort_by-Same candidates) (sort_by-IsRanked candidates)
          (λ p.
            filter-Same (has_key wanted) candidates ranked (sort_by-Same candidates) p
            ∙ sort_by-Same matches p)
          (sort_by-IsRanked matches),
    )
