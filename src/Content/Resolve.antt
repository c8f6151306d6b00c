-- ===== src/Content/Resolve.antt =====
-- crates/reveille-core/src/content/mohdb.rs: the resolution of wanted maps. The catalogue is a
-- parameter: what the lookup of a term returns, all pages together, or why it failed.
pub mod Ranked
pub mod Accounted
use reveille.Prelude.{
  unwrap_or, Bool, true, false, not, ◌&&◌, ◌||◌, List, [], ◌∷◌, ◌++◌, Option, none, some,
  if◌then◌else◌, ltb, length, any, filter, Result, ok, err, ◌>>=◌, ◌==◌,
}
use reveille.Text.{Text, codes, text_eq, is_empty, strip_prefix, strip_suffix}
use reveille.Text.Split.{rsplit_once}
use reveille.TreeMap.{text_ltb}
use reveille.MapIndex.{sort_by}
use reveille.Content.Catalogue.{
  WantedMap, CatalogueCandidate, ResolutionOutcome, exact, choice_required, no_source,
  CatalogueResolution, CatalogueNonResultReason, CatalogueNonResult, CatalogueResolutionPass,
}

-- The order of `candidate_rank`: tested before untested, then more downloads, then the filename.
unfoldable pub ranks_before : CatalogueCandidate → CatalogueCandidate → Bool
ranks_before a b =
    if a.map_file_tested && not b.map_file_tested
    then true
    else if b.map_file_tested && not a.map_file_tested
    then false
    else if ltb b.downloads a.downloads
    then true
    else if ltb a.downloads b.downloads
    then false
    else text_ltb a.filename b.filename

abbrev pub has_key : WantedMap → CatalogueCandidate → Bool
has_key wanted candidate = text_eq candidate.map_key wanted.key

-- The outcome for the ranked candidates and the exact ones among them.
abbrev pub outcome_of : List CatalogueCandidate → List CatalogueCandidate → ResolutionOutcome
outcome_of candidates (name_match ∷ alternatives) = exact name_match alternatives
outcome_of [] [] = no_source
outcome_of (c ∷ candidates) [] = choice_required (c ∷ candidates)

-- `resolve_candidates`
unfoldable pub resolve_candidates : WantedMap → List CatalogueCandidate → CatalogueResolution
resolve_candidates wanted candidates =
    let ranked = sort_by ranks_before candidates in
    record {
      wanted = wanted;
      hits = length ranked;
      outcome = outcome_of ranked (sort_by ranks_before (filter (has_key wanted) ranked));
    }

-- `rsplit('/').next()`
abbrev pub after_slash : Text → Option (Text × Text) → Text
after_slash key none = key
after_slash key (some (folder, name)) = name

abbrev pub basename : Text → Text
basename key = after_slash key (rsplit_once b'/' key)

abbrev pub without_mode : Text → Text
without_mode name =
    let short = unwrap_or (strip_prefix (codes "obj_") name) name in
    unwrap_or (strip_suffix (codes "_obj") short) short

-- `choice_search_term`
unfoldable pub choice_search_term : Text → Option Text
choice_search_term key =
    let term = without_mode (basename key) in
    if not (is_empty term) && not (text_eq term (basename key)) then some term else none

-- `is_narrow_choice_candidate`
abbrev pub is_narrow_choice : Text → CatalogueCandidate → Bool
is_narrow_choice term candidate = text_eq (basename candidate.map_key) term

-- The loop over the candidates of the narrow search, with the choices so far.
unfoldable pub narrow_choices :
    Text → List CatalogueCandidate → List CatalogueCandidate → List CatalogueCandidate
narrow_choices term choices [] = choices
narrow_choices term choices (c ∷ rest) =
    narrow_choices term
      (if is_narrow_choice term c && not (any (λ known. known.id == c.id) choices)
        then choices ++ c ∷ []
        else choices)
      rest

module _ (lookup : Text → Result CatalogueNonResultReason (List CatalogueCandidate)) where
  abbrev pub narrow : WantedMap → Option Text → Result CatalogueNonResultReason CatalogueResolution
  narrow wanted none = ok (resolve_candidates wanted [])
  narrow wanted (some term) =
      lookup term >>= λ page. ok (resolve_candidates wanted (narrow_choices term [] page))

  -- `resolve_one`
  unfoldable pub resolve_one : WantedMap → Result CatalogueNonResultReason CatalogueResolution
  unfolding resolve_candidates narrow_choices choice_search_term
  resolve_one wanted = lookup wanted.name >>= λ direct.
      if is_empty direct
      then narrow wanted (choice_search_term wanted.key)
      else ok (resolve_candidates wanted direct)

  abbrev pub recorded :
      WantedMap
      → Result CatalogueNonResultReason CatalogueResolution
      → CatalogueResolutionPass
      → CatalogueResolutionPass
  recorded wanted (ok resolution) pass = record pass { resolutions = resolution ∷ pass.resolutions }
  recorded wanted (err reason) pass = record pass {
    non_results = record { wanted = wanted; reason = reason } ∷ pass.non_results;
  }

  -- `resolve_all`
  unfoldable pub resolve_all : List WantedMap → CatalogueResolutionPass
  unfolding resolve_one
  resolve_all [] = record { resolutions = []; non_results = [] }
  resolve_all (wanted ∷ rest) = recorded wanted (resolve_one wanted) (resolve_all rest)
