-- ===== src/Content/Resolve/Accounted.antt =====
-- A pass over the wanted maps.
use reveille.Prelude.{
  ℕ, ◌+◌, ◌≡◌, refl, sym, ap, ◌∙◌, Bool, List, [], ◌∷◌, Option, none, some, if◌then◌else◌, length,
  filter, arith, Bool-cases, inl, inr, Result, ok, err, map, ◌>>=◌,
}
use reveille.Text.{Text, is_empty}
use reveille.Content.Catalogue.{
  WantedMap, CatalogueCandidate, CatalogueResolution, CatalogueNonResultReason,
  CatalogueResolutionPass,
}
use reveille.Content.Resolve.{
  choice_search_term, resolve_candidates, narrow, narrow_choices, resolve_one, recorded,
  resolve_all,
}

module _ (lookup : Text → Result CatalogueNonResultReason (List CatalogueCandidate)) where
  -- A resolution is of the map that was wanted.
  Names : WantedMap → Result CatalogueNonResultReason CatalogueResolution → Type 0
  Names wanted (ok resolution) = resolution.wanted ≡ wanted
  Names wanted (err reason) = Unit

  -- How many maps of a list pass a test.
  abbrev pub passing : (WantedMap → Bool) → List WantedMap → ℕ
  passing p maps = length (filter p maps)

  abbrev pub resolved : CatalogueResolutionPass → List WantedMap
  resolved pass = map (λ r. r.wanted) pass.resolutions

  abbrev pub failed : CatalogueResolutionPass → List WantedMap
  failed pass = map (λ n. n.wanted) pass.non_results

  candidates-Names :
      (wanted : WantedMap) (r : Result CatalogueNonResultReason (List CatalogueCandidate))
      (f : List CatalogueCandidate → Result CatalogueNonResultReason CatalogueResolution)
      → ((cs : List CatalogueCandidate) → Names wanted (f cs))
      → Names wanted (r >>= f)
  unfolding Names
  candidates-Names wanted (ok cs) f h = h cs
  candidates-Names wanted (err e) f h = tt

  narrow-Names :
      (wanted : WantedMap) (term : Option Text) → Names wanted (narrow lookup wanted term)
  unfolding Names resolve_candidates
  narrow-Names wanted none = refl
  narrow-Names wanted (some term) =
      candidates-Names wanted (lookup term)
        (λ page. ok (resolve_candidates wanted (narrow_choices term [] page))) (λ page. refl)

  resolve_one-Names : (wanted : WantedMap) → Names wanted (resolve_one lookup wanted)
  unfolding resolve_one Names resolve_candidates
  resolve_one-Names wanted =
      candidates-Names wanted (lookup wanted.name)
        (λ direct.
          if is_empty direct
          then narrow lookup wanted (choice_search_term wanted.key)
          else ok (resolve_candidates wanted direct))
        (λ direct. elim (Bool-cases (is_empty direct)) [
          | inl e ↦ rw e (narrow-Names wanted (choice_search_term wanted.key))
          | inr e ↦ rw e refl
        ])

  passing-cons :
      (p : WantedMap → Bool) (w : WantedMap) (ws : List WantedMap)
      → passing p (w ∷ ws) ≡ passing p (w ∷ []) + passing p ws
  passing-cons p w ws = ground arith

  recorded-passing :
      (p : WantedMap → Bool) (wanted : WantedMap)
      (r : Result CatalogueNonResultReason CatalogueResolution) (pass : CatalogueResolutionPass)
      → Names wanted r
      → passing p (resolved (recorded lookup wanted r pass))
          + passing p (failed (recorded lookup wanted r pass))
        ≡ passing p (wanted ∷ []) + (passing p (resolved pass) + passing p (failed pass))
  unfolding Names
  recorded-passing p wanted (ok resolution) pass h =
      rw h (omega (arith, passing-cons p wanted (resolved pass)))
  recorded-passing p wanted (err reason) pass h = omega (arith, passing-cons p wanted (failed pass))

  -- A failed lookup never ends a pass: every wanted map is in it, as often as it was wanted, with
  -- either its resolution or the reason why there is none.
  pub resolve_all-passing :
      (p : WantedMap → Bool) (wanted : List WantedMap)
      → passing p (resolved (resolve_all lookup wanted))
          + passing p (failed (resolve_all lookup wanted))
        ≡ passing p wanted
  unfolding resolve_all
  resolve_all-passing p [] = refl
  resolve_all-passing p (w ∷ rest) =
      recorded-passing p w (resolve_one lookup w) (resolve_all lookup rest) (resolve_one-Names w)
      ∙ ap (λ n. passing p (w ∷ []) + n) (resolve_all-passing p rest)
      ∙ sym (passing-cons p w rest)
