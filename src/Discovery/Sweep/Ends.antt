-- ===== src/Discovery/Sweep/Ends.antt =====
-- The loop of a sweep ends, with no task left.
use mathlib.Core.Option.{some-injective}
use reveille.Prelude.{
  ℕ, zero, suc, ◌+◌, ◌<◌, ◌≡◌, refl, ap, Bool, false, not, ◌&&◌, List, [], ◌∷◌, ◌++◌, none, some,
  length, length-append, arith, ltb, inl, inr, Bool-cases, Option-cases,
}
use reveille.Discovery.Model.{MasterEndpoint}
use reveille.Discovery.Probe.Outcome.{ProbeOutcome}
use reveille.Discovery.Sweep.{Sweeping, World, fill, filled, joined, join_next, round, sweep_loop}
use reveille.Discovery.Sweep.Collect.{Reached, fills, joins, length-pick}

abbrev left : ℕ × List MasterEndpoint × List ProbeOutcome → ℕ
left (spawned, waiting, tasks) = length waiting + length tasks

module _ (world : World) (concurrency : ℕ) where
  left-fill :
      (c : Bool) (n : ℕ) (waiting : List MasterEndpoint) (tasks : List ProbeOutcome)
      → left (fill world concurrency c n waiting tasks) ≡ length waiting + length tasks
  unfolding fill
  left-fill c n [] tasks = refl
  left-fill c n (e ∷ waiting) tasks = elim (Bool-cases (not c && ltb (length tasks) concurrency)) [
    | inl goes ↦ rw goes (
        omega (
          arith,
          left-fill c (n + 1) waiting (tasks ++ (world.probe n e ∷ [])),
          length-append tasks (world.probe n e ∷ []),
        ))
    | inr stays ↦ rw stays refl
  ]

  -- Tasks run while endpoints wait, unless the sweep is cancelled.
  fill-waiting :
      (c : Bool) (n : ℕ) (waiting : List MasterEndpoint) (tasks : List ProbeOutcome)
      → 0 < concurrency
      → c ≡ false
      → (fill world concurrency c n waiting tasks).2 ≡ []
      → (fill world concurrency c n waiting tasks).1 ≡ []
  unfolding fill
  fill-waiting c n [] tasks p f = λ idle. refl
  fill-waiting c n (e ∷ waiting) tasks p f =
      elim (Bool-cases (not c && ltb (length tasks) concurrency)) [
        | inl goes ↦ rw goes (fill-waiting c (n + 1) waiting (tasks ++ (world.probe n e ∷ [])) p f)
        | inr stays ↦ rw stays (λ idle. absurd (ground (arith, p, f, stays, ap length idle)))
      ]

  -- Where the loop stops: no task runs, and no endpoint waits unless the sink refused an event.
  pub record IsOver (endpoints : List MasterEndpoint) (s : Sweeping) : Type 0 where
    pub reached : Reached world concurrency endpoints s
    pub idle : s.tasks ≡ []
    pub done : 0 < concurrency → s.cancelled ≡ false → s.waiting ≡ []

  join_next-left :
      (s t : Sweeping) (tasks : List ProbeOutcome)
      → s.tasks ≡ tasks
      → join_next world concurrency s tasks ≡ some t
      → suc (length t.waiting + length t.tasks) ≡ length s.waiting + length s.tasks
  unfolding join_next joined
  join_next-left s t [] e j = ground arith
  join_next-left s t (task ∷ tasks) e j =
      let same = some-injective _ _ j in
      omega (
        arith,
        ap (λ u. length u.waiting) same,
        ap (λ u. length u.tasks) same,
        length-pick (world.next s.emitted) task tasks,
        ap length e,
      )

  join_next-none :
      (s : Sweeping) (tasks : List ProbeOutcome)
      → join_next world concurrency s tasks ≡ none
      → tasks ≡ []
  unfolding join_next
  join_next-none s [] j = refl
  join_next-none s (task ∷ tasks) j = ground arith

  -- From every state that a sweep reaches, one round for each endpoint and task left and a last
  -- one are enough for the loop to end.
  pub sweep_loop-IsOver :
      (endpoints : List MasterEndpoint) (fuel : ℕ) (s : Sweeping)
      → Reached world concurrency endpoints s
      → length s.waiting + length s.tasks < fuel
      → (t : Sweeping) × (sweep_loop world concurrency fuel s ≡ some t) × IsOver endpoints t
  unfolding sweep_loop round filled
  sweep_loop-IsOver endpoints zero s r h = absurd (omega (arith, h))
  sweep_loop-IsOver endpoints (suc fuel) s r h = elim (Option-cases (round world concurrency s)) [
    | inl over ↦ (
      filled world concurrency s,
      rw over refl,
      record {
        reached = fills r;
        idle = join_next-none (filled world concurrency s) _ over;
        done = λ p c.
            fill-waiting s.cancelled s.spawned s.waiting s.tasks p c
              (join_next-none (filled world concurrency s) _ over);
      },
    )
    | inr (next, j) ↦
        let (t, e, over) = sweep_loop-IsOver endpoints fuel next (joins (fills r) j) (
          omega (
            arith,
            h,
            join_next-left (filled world concurrency s) next _ refl j,
            left-fill s.cancelled s.spawned s.waiting s.tasks,
          )) in
        (t, rw j e, over)
  ]
