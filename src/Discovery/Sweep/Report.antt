-- ===== src/Discovery/Sweep/Report.antt =====
-- What a sweep reports, in any world.
use mathlib.Core.List.{Permᴰ}
use mathlib.Core.List.Permᴰ
use reveille.Prelude.{
  ℕ, zero, suc, ◌+◌, ◌<◌, ◌≡◌, refl, sym, ap, ◌∙◌, subst, ◌≢◌, max, Bool, true, false, List, [],
  ◌∷◌, ◌++◌, append-nil, Option, some, length, take, length-take, arith, All,
}
use reveille.Text.{Text}
use reveille.Discovery.Model.{MasterEndpoint}
use reveille.Discovery.Probe.{Network, probe_server}
use reveille.Discovery.Probe.Outcome.{ProbeOutcome}
use reveille.Discovery.Probe.Complete.{probe_server-Describes}
use reveille.Discovery.Sweep.{
  Sweeping, World, BrowseConfig, BrowseReport, inspected, begin, report_of, inspect,
}
use reveille.Discovery.Sweep.Duplicates.{
  endpoint_key, key, sort_outcomes, demote_seen, record_duplicate_game_endpoints,
}
use reveille.Discovery.Sweep.Order.{HasDistinctEndpoints, sort_outcomes-Permᴰ}
use reveille.Discovery.Sweep.Collect.{probes, first, Reached-Accounts}
use reveille.Discovery.Sweep.Ends.{IsOver, sweep_loop-IsOver}

-- The world in which the probe of a number is the code's own, on the network that it meets.
abbrev pub observed : (Text → Text) → (ℕ → Network) → (ℕ → ℕ) → (ℕ → Bool) → World
observed quoted nets next listens = record {
  probe = λ n. probe_server quoted (nets n);
  next = next;
  listens = listens;
}

module _ (world : World) (config : BrowseConfig) (endpoints : List MasterEndpoint)
    (unavailable : Option Text) where
  abbrev pub chosen : List MasterEndpoint
  chosen = take (inspected config.limit (length endpoints)) endpoints

  abbrev pub width : ℕ
  width = max config.concurrency 1

  -- A sweep that ended: its outcomes are those of a prefix of the chosen endpoints, once each, in
  -- the order in which they ended. The prefix is the whole list where the sink refused no event,
  -- and where it refused the event of number `k` it is shorter than `k` and the concurrency.
  pub record Ended (report : BrowseReport) : Type 0 where
    pub started : List MasterEndpoint
    pub waiting : List MasterEndpoint
    pub collected : List ProbeOutcome
    pub prefix : started ++ waiting ≡ chosen
    pub each_once : Permᴰ collected (probes world 0 started)
    pub complete : ((k : ℕ) → world.listens k ≡ true) → waiting ≡ []
    pub cut : (k : ℕ) → world.listens k ≡ false → length started < k + width
    pub reported : report ≡ record {
      target = config.target;
      registered = length endpoints;
      outcomes = record_duplicate_game_endpoints collected;
      master_unavailable = unavailable;
    }

  over-Ended :
      (s : Sweeping)
      → IsOver world width chosen s
      → Ended (report_of config.target (length endpoints) unavailable s)
  over-Ended s over =
      let inv = Reached-Accounts world width chosen s over.reached in
      let positive : 0 < width = omega arith in
      record {
        started = inv.started;
        waiting = s.waiting;
        collected = s.outcomes;
        prefix = inv.splits;
        each_once =
            subst (λ l. Permᴰ l (probes world 0 inv.started))
              (ap (λ l. s.outcomes ++ l) over.idle ∙ append-nil s.outcomes) inv.covers;
        complete = λ h. over.done positive (inv.eager h);
        cut = λ k h. omega (arith, inv.few k h positive, inv.counts);
        reported = refl;
      }

  -- Every sweep ends in a report, whatever the probes report, in whatever order they end and
  -- whenever the sink closes. The report holds exactly one outcome for each endpoint begun. These
  -- are all that the limit chose where the sink stayed open, and fewer than `k` and the
  -- concurrency where it refused the event of number `k`.
  pub inspect-Ended :
      (report : BrowseReport) × (inspect world config endpoints unavailable ≡ some report)
      × Ended report
  unfolding inspect
  inspect-Ended =
      let limit = inspected config.limit (length endpoints) in
      let (s, e, over) =
        sweep_loop-IsOver world width chosen (limit + 1) (begin world chosen) first
          (omega (arith, length-take limit endpoints)) in
      (report_of config.target (length endpoints) unavailable s, rw e refl, over-Ended s over)

-- No endpoint is registered twice.
abbrev pub AreDistinct : List MasterEndpoint → Type 0
AreDistinct [] = Unit
AreDistinct (e ∷ rest) = All (λ f. endpoint_key e ≢ endpoint_key f) rest × AreDistinct rest

module _ (quoted : Text → Text) (nets : ℕ → Network) (next : ℕ → ℕ) (listens : ℕ → Bool) where
  abbrev world : World
  world = observed quoted nets next listens

  probe_endpoint : (n : ℕ) (e : MasterEndpoint) → (probe_server quoted (nets n) e).endpoint ≡ e
  probe_endpoint n e = (probe_server-Describes quoted (nets n) e).same

  All-probes :
      (d : MasterEndpoint) (o : ProbeOutcome) (n : ℕ) (es : List MasterEndpoint)
      → o.endpoint ≡ d
      → All (λ f. endpoint_key d ≢ endpoint_key f) es
      → All (λ p. key o ≢ key p) (probes world n es)
  All-probes d o n [] same h = tt
  All-probes d o n (e ∷ es) same h = (
    (λ q. h.0 (sym (ap endpoint_key same) ∙ q ∙ ap endpoint_key (probe_endpoint n e))),
    All-probes d o (n + 1) es same h.1,
  )

  probes-HasDistinctEndpoints :
      (n : ℕ) (es : List MasterEndpoint) → AreDistinct es → HasDistinctEndpoints (probes world n es)
  probes-HasDistinctEndpoints n [] d = tt
  probes-HasDistinctEndpoints n (e ∷ es) d = (
    All-probes e (probe_server quoted (nets n) e) (n + 1) es (probe_endpoint n e) d.0,
    probes-HasDistinctEndpoints (n + 1) es d.1,
  )

take-AreDistinct : (n : ℕ) (es : List MasterEndpoint) → AreDistinct es → AreDistinct (take n es)
take-AreDistinct zero es d = tt
take-AreDistinct (suc n) [] d = tt
take-AreDistinct (suc n) (e ∷ es) d =
    (All-take (λ f. endpoint_key e ≢ endpoint_key f) n es d.0, take-AreDistinct n es d.1)
  where
    All-take :
        (P : MasterEndpoint → Type 0) (n : ℕ) (es : List MasterEndpoint)
        → All P es
        → All P (take n es)
    All-take P zero es h = tt
    All-take P (suc n) [] h = tt
    All-take P (suc n) (e ∷ es) h = (h.0, All-take P n es h.1)

-- A list without an endpoint twice is reported as if it were probed one by one in the order of the
-- list: where the sink stays open, neither the number of tasks nor the order in which they end
-- changes anything in the report.
pub inspect-one_by_one :
    (quoted : Text → Text) (nets : ℕ → Network) (next : ℕ → ℕ) (listens : ℕ → Bool)
    (config : BrowseConfig) (endpoints : List MasterEndpoint) (unavailable : Option Text)
    → AreDistinct endpoints
    → ((k : ℕ) → listens k ≡ true)
    → inspect (observed quoted nets next listens) config endpoints unavailable
      ≡ some (record {
        target = config.target;
        registered = length endpoints;
        outcomes = record_duplicate_game_endpoints (
            probes
              (observed quoted nets next listens)
              0
              (take (inspected config.limit (length endpoints)) endpoints));
        master_unavailable = unavailable;
      })
unfolding inspect record_duplicate_game_endpoints
inspect-one_by_one quoted nets next listens config endpoints unavailable d open_sink =
    let world = observed quoted nets next listens in
    let all = chosen world config endpoints unavailable in
    let (report, e, ended) = inspect-Ended world config endpoints unavailable in
    let whole : ended.started ≡ all =
      sym (append-nil ended.started)
      ∙ ap (λ l. ended.started ++ l) (sym (ended.complete open_sink))
      ∙ ended.prefix in
    let sorted : sort_outcomes (probes world 0 all) ≡ sort_outcomes ended.collected =
      sort_outcomes-Permᴰ
        (subst (λ l. Permᴰ (probes world 0 l) ended.collected) whole (Permᴰ.symm ended.each_once))
        (probes-HasDistinctEndpoints quoted nets next listens 0 all
          (take-AreDistinct (inspected config.limit (length endpoints)) endpoints d)) in
    e
    ∙ ap some (
        ended.reported
        ∙ ap
            (λ l. record {
              target = config.target;
              registered = length endpoints;
              outcomes = demote_seen [] l;
              master_unavailable = unavailable;
            })
            (sym sorted))
