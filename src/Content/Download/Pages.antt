-- ===== src/Content/Download/Pages.antt =====
-- When the lookup of a term ends.
use reveille.Prelude.{
  ℕ, zero, suc, ◌+◌, ◌≤◌, ◌<◌, ◌≡◌, refl, subst, ◌||◌, List, [], ◌++◌, Option, none, some, leb,
  ◌==◌, ◌⊎◌, inl, inr, length, filter_map, Result, ok, err, arith, Bool-cases, Result-cases,
}
use reveille.Content.Catalogue.{CatalogueCandidate}
use reveille.Content.Download.{
  MohDbError, PageWire, CataloguePage, fetched, from_wire, lookup_loop, lookup,
}

module _ (pages : ℕ → ℕ → Result MohDbError PageWire) (delays : List ℕ) where
  -- Every page that arrives holds a record, or belongs to an empty listing, and no page announces
  -- more than so many records.
  abbrev pub AreFilled : ℕ → Type 0
  AreFilled most =
      (number : ℕ) (page : PageWire)
      → fetched pages delays number ≡ ok page
      → ((0 < length page.content) ⊎ (page.total_elements ≡ 0)) × (page.total_elements ≤ most)

  -- The loop ended with an answer.
  abbrev Answers : Option (Result MohDbError CataloguePage) → Type 0
  Answers out = (answer : Result MohDbError CataloguePage) × (out ≡ some answer)

  lookup_loop-Answers :
      (most fuel number : ℕ) (records : List CatalogueCandidate) (seen : ℕ)
      → AreFilled most
      → most < fuel + seen
      → 0 < fuel
      → Answers (lookup_loop pages delays fuel number records seen)
  unfolding lookup_loop
  lookup_loop-Answers most zero number records seen filled enough p = absurd (omega (arith, p))
  lookup_loop-Answers most (suc fuel) number records seen filled enough p =
      elim (Result-cases (fetched pages delays number)) [
        | inl (page, e) ↦ rw e (
            let f = filled number page e in
            elim (Bool-cases
              (leb page.total_elements (seen + length page.content) || page.total_elements == 0)) [
                | inl over ↦ rw over (_, refl)
                | inr more ↦ rw more (
                    lookup_loop-Answers most fuel (number + 1)
                      (records ++ filter_map from_wire page.content) (seen + length page.content)
                      filled (ground (arith, enough, more, f.0, f.1))
                      (ground (arith, enough, more, f.0, f.1)))
              ])
        | inr (error, e) ↦ rw e (err error, refl)
      ]

  -- A lookup ends if no page that arrives is empty while its listing is not, and no page announces
  -- more than `most` records: as many pages as that, and one more, are enough.
  pub lookup-Answers :
      (most : ℕ)
      → AreFilled most
      → (answer : Result MohDbError CataloguePage) × (lookup pages delays (most + 1) ≡ some answer)
  unfolding lookup
  lookup-Answers most filled =
      let enough : suc most ≡ most + 1 = omega arith in
      subst (λ fuel. Answers (lookup_loop pages delays fuel 0 [] 0)) enough
        (lookup_loop-Answers most (suc most) 0 [] 0 filled (omega arith) (omega arith))

  -- Where every page is empty and announces a record, no number of pages is enough.
  lookup_loop-none :
      ((number : ℕ)
        → fetched pages delays number ≡ ok (record { content = []; total_elements = 1 }))
      → (fuel number : ℕ) (records : List CatalogueCandidate)
      → lookup_loop pages delays fuel number records 0 ≡ none
  unfolding lookup_loop
  lookup_loop-none always zero number records = refl
  lookup_loop-none always (suc fuel) number records =
      rw (always number) (lookup_loop-none always fuel (number + 1) (records ++ []))

  -- A catalogue whose pages are all empty and announce a record keeps the lookup asking for pages:
  -- it never has an answer.
  pub lookup-none :
      ((number : ℕ)
        → fetched pages delays number ≡ ok (record { content = []; total_elements = 1 }))
      → (fuel : ℕ) → lookup pages delays fuel ≡ none
  unfolding lookup
  lookup-none always fuel = lookup_loop-none always fuel 0 []
