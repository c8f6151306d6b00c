-- ===== src/Join/States.antt =====
-- What the states say of the local content.
use reveille.Prelude.{
  All, All-append, All-split, OnSome, none, ◌⊎◌, if◌then◌else◌, ◌+◌, ◌≡◌, refl, ap, sym, ◌∙◌, Bool,
  true, false, List, [], ◌∷◌, ◌++◌, Option, some, arith, any, any-append, find, inl, inr,
  Bool-cases, ◌↔◌,
}
use reveille.Text.{is_some, Text, is_empty, text_eq, text_eq_refl}
use reveille.Discovery.Server.{Server}
use reveille.Content.Catalogue.{CatalogueResolutionPass}
use reveille.MapIndex.{MapIndex, map_key}
use reveille.Preflight.{
  MapStatus, MapResult, Verdict, compatible, problems_found, Report, status_of, check,
}
use reveille.Preflight.Coverage.{check-FoundAs, FoundAs, found, has_key}
use reveille.Preflight.Present.{IsPresent, AllPresent-check}
use reveille.Preflight.Counts.{AllPresent, compatible-check}
use reveille.Join.{
  compatible_state, cant_tell, classify, classify_server, assess, checked_maps, keyed,
  current_map_readiness, result_readiness, readiness_of, published_of, state_of, CompatibilityState,
  conclusive,
}

-- The current map is among the maps that are checked, wherever the rotation has it.
current-checked_maps :
    (server : Server) (current key : Text)
    → server.current_map ≡ some current
    → map_key current ≡ some key
    → any (λ n. text_eq n current) (checked_maps server) ≡ true
unfolding checked_maps
current-checked_maps server current key c k =
    any-append (λ n. text_eq n current) server.rotation (keyed server.current_map)
    ∙ rw c (rw k (ground (arith, text_eq_refl current)))

readiness-FoundAs :
    {status : MapStatus} {o : Option MapResult}
    → FoundAs status o
    → result_readiness o ≡ readiness_of status
readiness-FoundAs (found r e) = ap readiness_of e

keyed-current_map_readiness :
    (report : Report) (o : Option Text) (current key : Text)
    → o ≡ some current
    → map_key current ≡ some key
    → current_map_readiness (some report) o
      ≡ result_readiness (find (has_key (some key)) report.maps)
unfolding current_map_readiness
keyed-current_map_readiness report o current key c k = rw c (rw k refl)

assess-current_map :
    (index : MapIndex) (server : Server) (resolution : Option CatalogueResolutionPass)
    (current key : Text)
    → server.current_map ≡ some current
    → map_key current ≡ some key
    → (assess index server resolution).current_map
      ≡ result_readiness (
          find
            (has_key (some key))
            (check index
              (checked_maps server)
              (published_of server.current_map server.map_checksum)).maps)
unfolding assess
assess-current_map index server resolution current key c k =
    keyed-current_map_readiness
      (check index (checked_maps server) (published_of server.current_map server.map_checksum))
      server.current_map current key c k

any-nonempty {ℓ} : {A : Type ℓ} (p : A → Bool) (xs : List A) → any p xs ≡ true → is_empty xs ≡ false
any-nonempty p [] h = ground arith
any-nonempty p (x ∷ xs) h = refl

classify_server-checked :
    (index : MapIndex) (server : Server) (resolution : Option CatalogueResolutionPass)
    → is_empty (checked_maps server) ≡ false
    → classify_server index server resolution ≡ assess index server resolution
unfolding classify_server
classify_server-checked index server resolution h = rw h

-- A server whose current map has a key is judged on that map: the readiness shown is that of the
-- local content under the map's name, with the published checksum, also where the rotation does
-- not list the map. So it is never unknown.
pub classify_server-current_map :
    (index : MapIndex) (server : Server) (resolution : Option CatalogueResolutionPass)
    (current key : Text)
    → server.current_map ≡ some current
    → map_key current ≡ some key
    → (classify_server index server resolution).current_map
      ≡ readiness_of (status_of index (published_of server.current_map server.map_checksum) current)
classify_server-current_map index server resolution current key c k =
    let m = current-checked_maps server current key c k in
    let published = published_of server.current_map server.map_checksum in
    ap (λ a. a.current_map)
      (classify_server-checked index server resolution
        (any-nonempty (λ n. text_eq n current) (checked_maps server) m))
    ∙ assess-current_map index server resolution current key c k
    ∙ readiness-FoundAs (check-FoundAs index (checked_maps server) published current key k m)

is_compatible : CompatibilityState → Bool
is_compatible compatible_state = true
is_compatible _ = false

state_of-compatible :
    (v : Verdict) (resolution : Option CatalogueResolutionPass)
    → state_of v resolution ≡ compatible_state
    → v ≡ compatible
state_of-compatible compatible resolution h = refl
state_of-compatible (problems_found a m) resolution h =
    elim (Bool-cases (conclusive (a + m) resolution)) [
      | inl e ↦ ground arith
      | inr e ↦ ground arith
    ]

-- The report a server's maps get.
abbrev pub report_of : MapIndex → Server → Report
report_of index server =
    check index (checked_maps server) (published_of server.current_map server.map_checksum)

is_empty-append : (a b : List Text) → is_empty a ≡ false → is_empty (a ++ b) ≡ false
is_empty-append [] b h = ground arith
is_empty-append (x ∷ a) b h = refl

silent_rotation :
    (index : MapIndex) (server : Server) (resolution : Option CatalogueResolutionPass)
    → is_empty server.rotation ≡ true
    → (classify_server index server resolution).state ≡ cant_tell
unfolding classify_server assess classify
silent_rotation index server resolution e = elim (Bool-cases (is_empty (checked_maps server))) [
  | inl c ↦ rw c refl
  | inr c ↦ rw c (rw e refl)
]

published_rotation :
    (index : MapIndex) (server : Server) (resolution : Option CatalogueResolutionPass)
    → is_empty server.rotation ≡ false
    → (classify_server index server resolution).state
      ≡ state_of (report_of index server).verdict resolution
unfolding classify_server assess classify checked_maps
published_rotation index server resolution e =
    rw (is_empty-append server.rotation (keyed server.current_map) e) (rw e refl)

classify_server-AllPresent :
    (index : MapIndex) (server : Server) (resolution : Option CatalogueResolutionPass)
    → ((classify_server index server resolution).state ≡ compatible_state)
      ↔ ((is_empty server.rotation ≡ false) × AllPresent (report_of index server).maps)
classify_server-AllPresent index server resolution =
    let all_present =
      compatible-check index (checked_maps server)
        (published_of server.current_map server.map_checksum) in
    elim (Bool-cases (is_empty server.rotation)) [
      | inl e ↦ (
        (λ h. let silent = silent_rotation index server resolution e in ground (arith, silent, h)),
        λ h. ground (arith, h.0),
      )
      | inr e ↦
          let state = published_rotation index server resolution e in
          (
            (λ h. (
              e,
              all_present.0
                  (state_of-compatible (report_of index server).verdict resolution (sym state ∙ h)),
            )),
            λ h. state ∙ ap (λ v. state_of v resolution) (all_present.1 h.1),
          )
    ]

module _ (index : MapIndex) (server : Server) where
  -- The local content has a map of the server, with the checksum that it published for its current
  -- map if that is the map.
  abbrev pub IsReady : Text → Type 0
  IsReady = IsPresent index (published_of server.current_map server.map_checksum)

  -- A name without a key is no map.
  abbrev pub IsReadyIfMap : Text → Type 0
  IsReadyIfMap name = (map_key name ≡ none) ⊎ IsReady name

  keyed-IsReady :
      (current : Option Text) → All IsReady (keyed current) ↔ OnSome IsReadyIfMap current
  keyed-IsReady none = ((λ h. tt), λ h. tt)
  keyed-IsReady (some current) = by_key (map_key current) refl
    where
      by_key :
          (o : Option Text)
          → map_key current ≡ o
          → All IsReady (if is_some o then current ∷ [] else [])
            ↔ ((map_key current ≡ none) ⊎ IsReady current)
      by_key none k = ((λ h. inl k), λ h. tt)
      by_key (some key) k = ((λ h. inr h.0), λ h. elim h [ inl e ↦ cc (e, k) | inr r ↦ (r, tt) ])

  checked_maps-IsReady :
      All IsReady (checked_maps server)
      ↔ (All IsReady server.rotation × OnSome IsReadyIfMap server.current_map)
  unfolding checked_maps
  checked_maps-IsReady = (
    (λ h.
        let (of_rotation, of_current) =
          All-split IsReady server.rotation (keyed server.current_map) h in
        (of_rotation, (keyed-IsReady server.current_map).0 of_current)),
    λ h.
        All-append IsReady server.rotation (keyed server.current_map) h.0
          ((keyed-IsReady server.current_map).1 h.1),
  )

  -- A server is shown compatible exactly when it published a rotation, the local content has every
  -- map of the rotation, and it has the map that is being played, if the server names one, also
  -- where the rotation does not list it. A map counts as there if the checksum that the server
  -- published is not that map's, or is equal to the local one.
  pub classify_server-compatible :
      (resolution : Option CatalogueResolutionPass)
      → ((classify_server index server resolution).state ≡ compatible_state) ↔ (
          (is_empty server.rotation ≡ false)
          × All IsReady server.rotation
          × OnSome IsReadyIfMap server.current_map)
  classify_server-compatible resolution =
      let report = classify_server-AllPresent index server resolution in
      let checked =
        AllPresent-check index (published_of server.current_map server.map_checksum)
          (checked_maps server) in
      (
        (λ h.
            let (published, all_present) = report.0 h in
            let ready = checked_maps-IsReady.0 (checked.0 all_present) in
            (published, ready.0, ready.1)),
        λ h. report.1 (h.0, checked.1 (checked_maps-IsReady.1 (h.1, h.2))),
      )
