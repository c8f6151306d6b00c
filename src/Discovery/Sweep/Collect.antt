-- ===== src/Discovery/Sweep/Collect.antt =====
-- The loop of a sweep, over the states that it reaches in any world.
use mathlib.Core.List.{Permᴰ}
use mathlib.Core.List.Permᴰ
use mathlib.Core.Option.{some-injective}
use reveille.Prelude.{
  ==_iff, ◌==◌, ℕ, zero, suc, ◌+◌, ◌≤◌, ◌<◌, ◌≡◌, refl, sym, ap, ◌∙◌, subst, true, false, not, ◌&&◌,
  List, [], ◌∷◌, ◌++◌, append_assoc, some, length, length-append, arith, ltb, inl, inr, Bool-cases,
}
use reveille.Discovery.Model.{MasterEndpoint}
use reveille.Discovery.Probe.Outcome.{ProbeOutcome}
use reveille.Discovery.Sweep.{
  Sweeping, World, pick, fill, refilled, filled, joined, join_next, begin,
}

pick-Permᴰ :
    {A : Type 0} (i : ℕ) (x : A) (xs : List A) → Permᴰ ((pick i x xs).0 ∷ (pick i x xs).1) (x ∷ xs)
unfolding pick
pick-Permᴰ zero x xs = Permᴰ.refl (x ∷ xs)
pick-Permᴰ (suc i) x [] = Permᴰ.refl (x ∷ [])
pick-Permᴰ (suc i) x (y ∷ ys) =
    Permᴰ.trans (Permᴰ.swap refl refl) (Permᴰ.cons refl (pick-Permᴰ i y ys))

pub length-pick : {A : Type 0} (i : ℕ) (x : A) (xs : List A) → length (pick i x xs).1 ≡ length xs
unfolding pick
length-pick zero x xs = refl
length-pick (suc i) x [] = refl
length-pick (suc i) x (y ∷ ys) = ap suc (length-pick i y ys)

module _ (world : World) where
  -- What the probes of a list of endpoints report, the first with this number.
  abbrev pub probes : ℕ → List MasterEndpoint → List ProbeOutcome
  probes n [] = []
  probes n (e ∷ rest) = world.probe n e ∷ probes (n + 1) rest

  probes-snoc :
      (n : ℕ) (es : List MasterEndpoint) (e : MasterEndpoint)
      → probes n (es ++ (e ∷ [])) ≡ probes n es ++ (world.probe (n + length es) e ∷ [])
  probes-snoc n [] e = ap (λ k. world.probe k e ∷ []) (omega arith)
  probes-snoc n (d ∷ es) e = ap (◌∷◌ (world.probe n d)) (
      probes-snoc (n + 1) es e
      ∙ ap (λ k. probes (n + 1) es ++ (world.probe k e ∷ [])) (omega arith))

  module _ (concurrency : ℕ) (endpoints : List MasterEndpoint) where
    -- The states of the loop: tasks are spawned, and tasks end, in any order.
    pub data Reached : Sweeping → Type 0 where
      first : Reached (begin world endpoints)
      fills : {s : Sweeping} → Reached s → Reached (filled world concurrency s)
      joins :
          {s t : Sweeping} → Reached s → join_next world concurrency s s.tasks ≡ some t → Reached t

    -- What every state keeps: the endpoints begun are a prefix, each is a task or an outcome, the
    -- tasks are no more than allowed, and a refused event stops the spawning.
    pub record Accounts (s : Sweeping) : Type 0 where
      pub started : List MasterEndpoint
      pub splits : started ++ s.waiting ≡ endpoints
      pub counts : length started ≡ s.spawned
      pub covers : Permᴰ (s.outcomes ++ s.tasks) (probes 0 started)
      pub balance : s.spawned ≡ length s.outcomes + length s.tasks
      pub bounded : length s.tasks ≤ concurrency
      pub events : s.emitted ≡ length s.outcomes + 1
      pub deaf : (k : ℕ) → world.listens k ≡ false → k < s.emitted → s.cancelled ≡ true
      pub few : (k : ℕ) → world.listens k ≡ false → 0 < concurrency → s.spawned < k + concurrency
      pub eager : ((k : ℕ) → world.listens k ≡ true) → s.cancelled ≡ false

    abbrev spawn : Sweeping → MasterEndpoint → List MasterEndpoint → Sweeping
    spawn s e waiting = record {
      waiting = waiting;
      tasks = s.tasks ++ (world.probe s.spawned e ∷ []);
      outcomes = s.outcomes;
      cancelled = s.cancelled;
      spawned = s.spawned + 1;
      emitted = s.emitted;
    }

    spawn-Accounts :
        (s : Sweeping) (e : MasterEndpoint) (waiting : List MasterEndpoint)
        → s.waiting ≡ e ∷ waiting
        → s.cancelled ≡ false
        → length s.tasks < concurrency
        → Accounts s
        → Accounts (spawn s e waiting)
    spawn-Accounts s e waiting w c b inv = record {
      started = inv.started ++ (e ∷ []);
      splits =
          append_assoc inv.started (e ∷ []) waiting
          ∙ ap (λ l. inv.started ++ l) (sym w)
          ∙ inv.splits;
      counts = omega (arith, length-append inv.started (e ∷ []), inv.counts);
      covers =
          subst (λ l. Permᴰ l (probes 0 (inv.started ++ (e ∷ []))))
            (append_assoc s.outcomes s.tasks (world.probe s.spawned e ∷ []))
            (subst (λ r. Permᴰ ((s.outcomes ++ s.tasks) ++ (world.probe s.spawned e ∷ [])) r)
              (sym (
                probes-snoc 0 inv.started e
                ∙ ap (λ k. probes 0 inv.started ++ (world.probe k e ∷ []))
                    (omega (arith, inv.counts))))
              (Permᴰ.append_right (world.probe s.spawned e ∷ []) inv.covers));
      balance = omega (arith, length-append s.tasks (world.probe s.spawned e ∷ []), inv.balance);
      bounded = omega (arith, length-append s.tasks (world.probe s.spawned e ∷ []), b);
      events = inv.events;
      deaf = inv.deaf;
      few = λ k h p. elim (Bool-cases (ltb k s.emitted)) [
        | inl early ↦ cc (inv.deaf k h (ground arith))
        | inr late ↦ ground (arith, inv.balance, inv.events, b)
      ];
      eager = inv.eager;
    }

    fill-Accounts :
        (s : Sweeping) (waiting : List MasterEndpoint)
        → s.waiting ≡ waiting
        → Accounts s
        → Accounts (refilled s (fill world concurrency s.cancelled s.spawned waiting s.tasks))
    unfolding fill
    fill-Accounts s [] w inv = subst (λ l. Accounts (refilled s (s.spawned, l, s.tasks))) w inv
    fill-Accounts s (e ∷ waiting) w inv =
        elim (Bool-cases (not s.cancelled && ltb (length s.tasks) concurrency)) [
          | inl goes ↦ rw goes (
              fill-Accounts (spawn s e waiting) waiting refl
                (spawn-Accounts s e waiting w (ground arith) (ground arith) inv))
          | inr stays ↦ rw stays (subst (λ l. Accounts (refilled s (s.spawned, l, s.tasks))) w inv)
        ]

    filled-Accounts : (s : Sweeping) → Accounts s → Accounts (filled world concurrency s)
    unfolding filled
    filled-Accounts s inv = fill-Accounts s s.waiting refl inv

    joined-Accounts :
        (s : Sweeping) (task : ProbeOutcome) (rest tasks : List ProbeOutcome)
        → s.tasks ≡ tasks
        → Permᴰ (task ∷ rest) tasks
        → length tasks ≡ suc (length rest)
        → Accounts s
        → Accounts (joined world concurrency s task rest)
    unfolding joined
    joined-Accounts s task rest tasks e p l inv = record {
      started = inv.started;
      splits = inv.splits;
      counts = inv.counts;
      covers =
          subst (λ m. Permᴰ m (probes 0 inv.started))
            (sym (append_assoc s.outcomes (task ∷ []) rest))
            (Permᴰ.trans
              (Permᴰ.append_left s.outcomes (subst (λ m. Permᴰ (task ∷ rest) m) (sym e) p))
              inv.covers);
      balance = omega (arith, length-append s.outcomes (task ∷ []), inv.balance, l, ap length e);
      bounded = omega (arith, inv.bounded, l, ap length e);
      events = omega (arith, length-append s.outcomes (task ∷ []), inv.events);
      deaf = λ k h m. elim (Bool-cases (k == s.emitted)) [
        | inl now ↦ rw (sym ((==_iff k s.emitted).0 now), h) refl
        | inr other ↦ rw (inv.deaf k h (ground arith)) (ground arith)
      ];
      few = inv.few;
      eager = λ h. rw (h s.emitted) (inv.eager h);
    }

    join_next-Accounts :
        (s t : Sweeping) (tasks : List ProbeOutcome)
        → s.tasks ≡ tasks
        → join_next world concurrency s tasks ≡ some t
        → Accounts s
        → Accounts t
    unfolding join_next
    join_next-Accounts s t [] e j inv = ground arith
    join_next-Accounts s t (task ∷ tasks) e j inv =
        let i = world.next s.emitted in
        subst Accounts (some-injective _ _ j) (
          joined-Accounts s (pick i task tasks).0 (pick i task tasks).1 (task ∷ tasks) e
            (pick-Permᴰ i task tasks) (omega (arith, length-pick i task tasks)) inv)

    first-Accounts : Accounts (begin world endpoints)
    first-Accounts = record {
      started = [];
      splits = refl;
      counts = refl;
      covers = Permᴰ.nil;
      balance = refl;
      bounded = omega arith;
      events = refl;
      deaf = λ k h m. ap not (ap world.listens (let e : 0 ≡ k = omega (arith, m) in e) ∙ h);
      few = λ k h p. omega (arith, p);
      eager = λ h. ap not (h 0);
    }

    -- In every state that a sweep reaches, whatever the probes report, in whatever order they end
    -- and whenever the sink closes: the endpoints begun are a prefix of the list, each of them is
    -- one running task or one outcome, never more tasks run than the concurrency allows, and
    -- where the event of number `k` is refused fewer than `k` and the concurrency are ever begun.
    pub Reached-Accounts : (s : Sweeping) → Reached s → Accounts s
    Reached-Accounts s first = first-Accounts
    Reached-Accounts s (fills {s = t} r) = filled-Accounts t (Reached-Accounts t r)
    Reached-Accounts s (joins {s = t} r j) =
        join_next-Accounts t s t.tasks refl j (Reached-Accounts t r)
