-- ===== src/Discovery/Summary/Tally.antt =====
-- The counts of a summary add up.
use reveille.Prelude.{
  ℕ, ◌+◌, ◌≡◌, refl, ap, ◌∙◌, List, [], ◌∷◌, Option, none, some, All, filter_map, length, arith,
  unwrap_or, Bool-cases, inl, inr,
}
use reveille.Text.{Text, is_some, text_eq, text_eq_iff}
use reveille.TreeMap.{lookup, insert, lookup-insert}
use reveille.Discovery.Server.{Server}
use reveille.Discovery.Probe.Outcome.{ProbeOutcome, NonResult}
use reveille.Discovery.Sweep.{BrowseReport}
use reveille.Discovery.Sweep.Unique.{IsEither}
use reveille.Discovery.Summary.{count_protocols, count, summary}

either_counts :
    (os : List ProbeOutcome)
    → All IsEither os
    → length (filter_map (λ o. o.server) os) + count (λ o. is_some o.non_result) os ≡ length os
either_counts [] h = refl
either_counts (o ∷ os) h = by_fields o.server o.non_result refl refl (either_counts os h.1)
  where
    by_fields :
        (server : Option Server) (reason : Option NonResult)
        → o.server ≡ server
        → o.non_result ≡ reason
        → length (filter_map (λ o. o.server) os) + count (λ o. is_some o.non_result) os ≡ length os
        → length (filter_map (λ o. o.server) (o ∷ os)) + count (λ o. is_some o.non_result) (o ∷ os)
          ≡ length (o ∷ os)
    by_fields none none e f ih = cc (rw (e, f) at h.0)
    by_fields none (some r) e f ih = rw (e, f) (omega (arith, ih))
    by_fields (some s) none e f ih = rw (e, f) (omega (arith, ih))
    by_fields (some s) (some r) e f ih = cc (rw (e, f) at h.0)

-- In a report whose outcomes are each a server or a reason, the complete servers and the recorded
-- reasons of the summary add up to the endpoints inspected.
pub summary-inspected :
    (report : BrowseReport)
    → All IsEither report.outcomes
    → (summary report).getstatus_reachable + (summary report).non_results
      ≡ (summary report).inspected
unfolding summary
summary-inspected report h = either_counts report.outcomes h

-- How often a protocol stands in the list.
abbrev pub occurrences : Text → List Text → ℕ
occurrences p ps = count (text_eq p) ps

pub count_protocols-occurrences :
    (p : Text) (counts : List (Text × ℕ)) (ps : List Text)
    → unwrap_or (lookup p (count_protocols counts ps)) 0
      ≡ unwrap_or (lookup p counts) 0 + occurrences p ps
unfolding count_protocols
count_protocols-occurrences p counts [] = omega arith
count_protocols-occurrences p counts (q ∷ ps) =
    let n = unwrap_or (lookup q counts) 0 + 1 in
    count_protocols-occurrences p (insert q n counts) ps
    ∙ rw (lookup-insert p q n counts) (elim (Bool-cases (text_eq p q)) [
      | inl same ↦
          let e : p ≡ q = (text_eq_iff p q).0 same in
          rw same (omega (arith, ap (λ t. unwrap_or (lookup t counts) 0) e))
      | inr other ↦ rw other refl
    ])

-- The count of each protocol is the number of complete servers that publish it.
pub summary-protocols :
    (report : BrowseReport) (p : Text)
    → unwrap_or (lookup p (summary report).protocols) 0
      ≡ occurrences p (filter_map (λ s. s.protocol) (filter_map (λ o. o.server) report.outcomes))
unfolding summary lookup
summary-protocols report p =
    count_protocols-occurrences p []
      (filter_map (λ s. s.protocol) (filter_map (λ o. o.server) report.outcomes))
    ∙ omega arith
