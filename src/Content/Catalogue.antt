-- ===== src/Content/Catalogue.antt =====
-- The results of looking maps up in the catalogue, of
-- crates/reveille-core/src/content/mohdb.rs.
use reveille.Prelude.{ℕ, Bool, true, false, List}
use reveille.Text.{Text}

-- The original and the normalised name of a map.
pub record WantedMap : Type 0 where
  pub name : Text
  pub key : Text

pub record CatalogueCandidate : Type 0 where
  pub id : ℕ
  pub map_name : Text
  pub map_key : Text
  pub filename : Text
  pub file_size : ℕ
  pub map_file_tested : Bool
  pub downloads : ℕ
  pub download_url : Text

pub data ResolutionOutcome : Type 0 where
  exact :
      (name_match : CatalogueCandidate)
      → (alternatives : List CatalogueCandidate) → ResolutionOutcome
  choice_required : (choices : List CatalogueCandidate) → ResolutionOutcome
  no_source : ResolutionOutcome

pub record CatalogueResolution : Type 0 where
  pub wanted : WantedMap
  pub hits : ℕ
  pub outcome : ResolutionOutcome

pub data CatalogueNonResultReason : Type 0 where
  timeout : CatalogueNonResultReason
  http_status : ℕ → CatalogueNonResultReason
  network malformed : Text → CatalogueNonResultReason

pub record CatalogueNonResult : Type 0 where
  pub wanted : WantedMap
  pub reason : CatalogueNonResultReason

pub record CatalogueResolutionPass : Type 0 where
  pub resolutions : List CatalogueResolution
  pub non_results : List CatalogueNonResult

-- `item.outcome == ResolutionOutcome::NoSource`
abbrev pub is_no_source : ResolutionOutcome → Bool
is_no_source no_source = true
is_no_source _ = false
