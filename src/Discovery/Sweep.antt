-- ===== src/Discovery/Sweep.antt =====
-- The sweep of crates/reveille-core/src/discovery/client.rs: the endpoints are probed by a bounded
-- set of tasks, whose outcomes are collected in the order in which they end. The world is a
-- parameter: what each probe reports, which task ends next, and whether the sink still listens.
pub mod Order
pub mod Duplicates
pub mod Collect
pub mod Ends
pub mod Unique
pub mod Report
pub mod Answer
pub mod Fetch
use reveille.Prelude.{
  ℕ, zero, suc, ◌+◌, ◌≤◌, min, max, Bool, true, false, not, ◌&&◌, List, [], ◌∷◌, ◌++◌, Option, none,
  some, if◌then◌else◌, ltb, length, take, unwrap_or, Result, ok, err, opt_map,
}
use reveille.Text.{Text, is_empty}
use reveille.Discovery.Model.{MasterEndpoint, TargetGame}
use reveille.Discovery.Probe.Outcome.{ProbeOutcome, RequestError, request_error_text, timeout}
use reveille.Discovery.Sweep.Fetch.{Stream, fetch_master_retrying}
use reveille.Discovery.Sweep.Duplicates.{record_duplicate_game_endpoints}

-- The `JoinSet` of probes, each as the outcome it will report, and the rest of what the loop keeps.
-- `emitted` counts the events sent, and `spawned` the probes begun.
pub record Sweeping : Type 0 where
  pub waiting : List MasterEndpoint
  pub tasks : List ProbeOutcome
  pub outcomes : List ProbeOutcome
  pub cancelled : Bool
  pub spawned : ℕ
  pub emitted : ℕ

-- The world that a sweep meets: the outcome of the probe of a number, the place among the running
-- tasks of the one that ends next, and whether the event of a number is received.
pub record World : Type 0 where
  pub probe : ℕ → MasterEndpoint → ProbeOutcome
  pub next : ℕ → ℕ
  pub listens : ℕ → Bool

-- The task at a place, or the last one, and the others.
unfoldable pub pick : {A : Type 0} → ℕ → A → List A → A × List A
pick zero x xs = (x, xs)
pick (suc i) x [] = (x, [])
pick (suc i) x (y ∷ ys) = let picked = pick i y ys in (picked.0, x ∷ picked.1)

-- The state in which the loop joins, from what `fill` returns.
abbrev pub refilled : Sweeping → ℕ × List MasterEndpoint × List ProbeOutcome → Sweeping
refilled s (spawned, waiting, tasks) = record {
  waiting = waiting;
  tasks = tasks;
  outcomes = s.outcomes;
  cancelled = s.cancelled;
  spawned = spawned;
  emitted = s.emitted;
}

module _ (world : World) (concurrency : ℕ) where
  -- `while !cancelled && tasks.len() < concurrency` over the endpoints that wait.
  unfoldable pub fill :
      Bool
      → ℕ
      → List MasterEndpoint
      → List ProbeOutcome
      → ℕ × List MasterEndpoint × List ProbeOutcome
  fill cancelled spawned [] tasks = (spawned, [], tasks)
  fill cancelled spawned (e ∷ waiting) tasks =
      let later = fill cancelled (spawned + 1) waiting (tasks ++ (world.probe spawned e ∷ [])) in
      if not cancelled && ltb (length tasks) concurrency
      then later
      else (spawned, e ∷ waiting, tasks)

  unfoldable pub filled : Sweeping → Sweeping
  unfolding fill
  filled s = refilled s (fill s.cancelled s.spawned s.waiting s.tasks)

  -- What follows the end of a task: its outcome is emitted and kept.
  unfoldable pub joined : Sweeping → ProbeOutcome → List ProbeOutcome → Sweeping
  joined s outcome rest = record {
    waiting = s.waiting;
    tasks = rest;
    outcomes = s.outcomes ++ (outcome ∷ []);
    cancelled = if world.listens s.emitted then s.cancelled else true;
    spawned = s.spawned;
    emitted = s.emitted + 1;
  }

  -- `join_next` on the tasks that run: none where there are none.
  unfoldable pub join_next : Sweeping → List ProbeOutcome → Option Sweeping
  unfolding joined pick
  join_next s [] = none
  join_next s (task ∷ tasks) =
      let picked = pick (world.next s.emitted) task tasks in some (joined s picked.0 picked.1)

  -- One round of the loop, which breaks with none.
  unfoldable pub round : Sweeping → Option Sweeping
  unfolding filled join_next
  round s = join_next (filled s) (filled s).tasks

  abbrev pub go_on : Sweeping → Option Sweeping → (Sweeping → Option Sweeping) → Option Sweeping
  go_on s none again = some (filled s)
  go_on s (some next) again = again next

  -- The loop on fuel.
  unfoldable pub sweep_loop : ℕ → Sweeping → Option Sweeping
  unfolding round
  sweep_loop zero s = none
  sweep_loop (suc fuel) s = go_on s (round s) (sweep_loop fuel)

-- `BrowseConfig`, less its deadlines and the master's address, for which the parameters stand.
pub record BrowseConfig : Type 0 where
  pub target : TargetGame
  pub limit : Option ℕ
  pub concurrency : ℕ
  pub master_retry : List ℕ

pub record BrowseReport : Type 0 where
  pub target : TargetGame
  pub registered : ℕ
  pub outcomes : List ProbeOutcome
  pub master_unavailable : Option Text

-- `config.limit.unwrap_or(registered).min(registered)`
abbrev pub inspected : Option ℕ → ℕ → ℕ
inspected limit registered = min (unwrap_or limit registered) registered

-- The state in which the loop begins: the first event tells how many endpoints there are.
abbrev pub begin : World → List MasterEndpoint → Sweeping
begin world endpoints = record {
  waiting = endpoints;
  tasks = [];
  outcomes = [];
  cancelled = not (world.listens 0);
  spawned = 0;
  emitted = 1;
}

abbrev pub report_of : TargetGame → ℕ → Option Text → Sweeping → BrowseReport
report_of target registered unavailable s = record {
  target = target;
  registered = registered;
  outcomes = record_duplicate_game_endpoints s.outcomes;
  master_unavailable = unavailable;
}

-- The list of endpoints to ask: the master's, or the remembered one where there is any.
abbrev pub endpoints_of :
    (Text → Text)
    → Result RequestError (List MasterEndpoint)
    → List MasterEndpoint
    → Result RequestError (List MasterEndpoint × Option Text)
endpoints_of quoted (ok endpoints) remembered = ok (endpoints, none)
endpoints_of quoted (err source) remembered =
    if is_empty remembered
    then err source
    else ok (remembered, some (request_error_text quoted source))

module _ (world : World) where
  -- The sweep of a list of endpoints, whose loop has fuel for a round per endpoint and the last.
  unfoldable pub inspect : BrowseConfig → List MasterEndpoint → Option Text → Option BrowseReport
  unfolding sweep_loop record_duplicate_game_endpoints
  inspect config endpoints unavailable =
      let limit = inspected config.limit (length endpoints) in
      opt_map (report_of config.target (length endpoints) unavailable) (
        sweep_loop world (max config.concurrency 1) (limit + 1)
          (begin world (take limit endpoints)))

-- The last answer of the attempts that the master was given.
abbrev pub last_answer :
    Option (Result RequestError (List MasterEndpoint) × ℕ)
    → Result RequestError (List MasterEndpoint)
last_answer none = err timeout
last_answer (some (answer, made)) = answer

abbrev pub inspect_from :
    World
    → BrowseConfig
    → Result RequestError (List MasterEndpoint × Option Text)
    → Result RequestError (Option BrowseReport)
inspect_from world config (err source) = err source
inspect_from world config (ok (endpoints, unavailable)) =
    ok (inspect world config endpoints unavailable)

-- `sweep`, with the streams that the attempts at the master open: an error is
-- `DiscoveryError::Master`.
unfoldable pub sweep :
    (Text → Text)
    → World
    → (ℕ → Stream)
    → BrowseConfig
    → List MasterEndpoint
    → Result RequestError (Option BrowseReport)
unfolding inspect fetch_master_retrying
sweep quoted world streams config remembered = inspect_from world config (
    endpoints_of quoted
      (last_answer (fetch_master_retrying config.target streams config.master_retry)) remembered)
