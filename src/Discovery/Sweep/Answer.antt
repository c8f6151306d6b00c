-- ===== src/Discovery/Sweep/Answer.antt =====
-- How a sweep ends, with and without the master.
use reveille.Prelude.{
  ℕ, ◌≡◌, refl, sym, ◌∙◌, subst, ◌≢◌, ap, List, [], ◌∷◌, Option, none, some, Result, ok, err,
}
use reveille.Text.{Text}
use reveille.Discovery.Model.{MasterEndpoint}
use reveille.Discovery.Probe.Outcome.{RequestError, request_error_text}
use reveille.Discovery.Sweep.Fetch.{Stream, fetch_master_retrying}
use reveille.Discovery.Sweep.{
  World, BrowseConfig, BrowseReport, inspect, endpoints_of, last_answer, inspect_from, sweep,
}
use reveille.Discovery.Sweep.Report.{Ended, inspect-Ended}

module _ (quoted : Text → Text) (world : World) (streams : ℕ → Stream) (config : BrowseConfig)
    (remembered : List MasterEndpoint) where
  -- What the attempts at the master came to.
  abbrev pub answer : Result RequestError (List MasterEndpoint)
  answer = last_answer (fetch_master_retrying config.target streams config.master_retry)

  -- The three ways in which a sweep ends.
  pub data IsSweep : Result RequestError (Option BrowseReport) → Type 0 where
    master_failed :
        {source : RequestError} → answer ≡ err source → remembered ≡ [] → IsSweep (err source)
    from_master :
        {endpoints : List MasterEndpoint} {report : BrowseReport}
        → answer ≡ ok endpoints
        → Ended world config endpoints none report
        → IsSweep (ok (some report))
    from_remembered :
        {source : RequestError} {report : BrowseReport}
        → answer ≡ err source
        → remembered ≢ []
        → Ended world config remembered (some (request_error_text quoted source)) report
        → IsSweep (ok (some report))

  of_endpoints :
      (endpoints : List MasterEndpoint)
      → answer ≡ ok endpoints
      → IsSweep (ok (inspect world config endpoints none))
  of_endpoints endpoints e =
      let (report, i, ended) = inspect-Ended world config endpoints none in
      rw i (from_master e ended)

  of_failure :
      (source : RequestError) (list : List MasterEndpoint)
      → remembered ≡ list
      → answer ≡ err source
      → IsSweep (inspect_from world config (endpoints_of quoted (err source) list))
  of_failure source [] r e = master_failed e r
  of_failure source (first ∷ rest) r e =
      let unavailable = some (request_error_text quoted source) in
      let (report, i, ended) = inspect-Ended world config remembered unavailable in
      subst IsSweep (ap ok (sym i ∙ ap (λ l. inspect world config l unavailable) r))
        (from_remembered e (λ q. cc) ended)

  of_answer :
      (a : Result RequestError (List MasterEndpoint))
      → answer ≡ a
      → IsSweep (inspect_from world config (endpoints_of quoted a remembered))
  of_answer (ok endpoints) e = of_endpoints endpoints e
  of_answer (err source) e = of_failure source remembered refl e

  -- A sweep fails exactly when the last attempt at the master failed and nothing is remembered,
  -- with that attempt's error. Otherwise it ends in a report on the master's list, or on the
  -- remembered one with the master's error as the reason, and holds one outcome for each endpoint
  -- begun.
  pub sweep-IsSweep : IsSweep (sweep quoted world streams config remembered)
  unfolding sweep
  sweep-IsSweep = of_answer answer refl
