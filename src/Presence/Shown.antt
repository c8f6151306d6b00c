-- ===== src/Presence/Shown.antt =====
-- What a status can show after any sequence of transitions.
use reveille.Prelude.{
  ℕ, ◌+◌, ◌≤◌, ◌<◌, ◌≡◌, refl, sym, ==_iff, Bool, true, false, Option, none, some, ◌==◌, arith,
  List, [], ◌∷◌, ◌++◌, All, Bool-cases, inl, inr,
}
use reveille.Presence.{
  Activity, Publish, u64_next, State, initial, publish_of, reset, set_enabled, begin, end, keep,
  is_match, bool_eq,
}

-- An exchange that was issued is added to those that may still finish.
abbrev pub issue : Option Publish → List Publish → List Publish
issue none issued = issued
issue (some p) issued = p ∷ issued

module _ {C : Type 0} (opened : Activity → C) where
  -- The states with the exchanges issued so far. An exchange may finish at any time, or never, and
  -- hands over the connection that shows its activity. No step starts from the last counter.
  pub data Reachable : State C → List Publish → Type 0 where
    started : Reachable initial []
    enabled_set :
        {s : State C} {issued : List Publish}
        → (enabled : Bool) → s.attempt + 1 < 0x1_0000_0000_0000_0000
        → Reachable s issued
        → Reachable (set_enabled s enabled).0 (issue (set_enabled s enabled).1 issued)
    begun :
        {s : State C} {issued : List Publish}
        → (activity : Activity) → s.attempt + 1 < 0x1_0000_0000_0000_0000
        → Reachable s issued
        → Reachable (begin s activity).0 (issue (begin s activity).2 issued)
    ended :
        {s : State C} {issued : List Publish}
        → (id : ℕ) → s.attempt + 1 < 0x1_0000_0000_0000_0000
        → Reachable s issued
        → Reachable (end s id) issued
    finished :
        {s : State C}
        → (before after : List Publish) (p : Publish) → Reachable s (before ++ p ∷ after)
        → Reachable (keep s p.attempt (opened p.activity)).0 (before ++ p ∷ after)

  -- The status shows an activity: sharing is enabled and it is that of the current match.
  pub data Shows (activity : Activity) (s : State C) : Type 0 where
    shows : (id : ℕ) → s.enabled ≡ true → s.current ≡ some (id, activity) → Shows activity s

  -- A connection that is held shows the current match.
  pub data Holds (s : State C) : Option C → Type 0 where
    silent : Holds s none
    held : (activity : Activity) → Shows activity s → Holds s (some (opened activity))

  -- An exchange with the state's own counter shows the current match; no counter is ahead.
  abbrev pub Fresh : State C → Publish → Type 0
  Fresh s p = (p.attempt ≤ s.attempt) × (p.attempt ≡ s.attempt → Shows p.activity s)

  abbrev pub Consistent : State C → List Publish → Type 0
  Consistent s issued = Holds s s.connection × All (Fresh s) issued

  Aged : State C → List Publish → Type 0
  Aged s = All (λ p. p.attempt ≤ s.attempt)

  aged : (s : State C) (issued : List Publish) → All (Fresh s) issued → Aged s issued
  unfolding Aged
  aged s [] h = tt
  aged s (p ∷ issued) h = (h.0.0, aged s issued h.1)

  -- After a change, no earlier exchange has the counter.
  outdated :
      (s t : State C) (issued : List Publish)
      → s.attempt < t.attempt
      → Aged s issued
      → All (Fresh t) issued
  unfolding Aged
  outdated s t [] lt h = tt
  outdated s t (p ∷ issued) lt h = (
    (omega (arith, lt, h.0), λ e. absurd (omega (arith, lt, h.0, e))),
    outdated s t issued lt h.1,
  )

  next_attempt : (n : ℕ) → n + 1 < 0x1_0000_0000_0000_0000 → u64_next n ≡ n + 1
  next_attempt n h = omega (arith, h)

  issue-Fresh :
      (t : State C) (issued : List Publish) (enabled : Bool) (current : Option (ℕ × Activity))
      → t.enabled ≡ enabled
      → t.current ≡ current
      → All (Fresh t) issued
      → All (Fresh t) (issue (publish_of enabled current t.attempt) issued)
  issue-Fresh t issued true none e c h = h
  issue-Fresh t issued true (some (id, activity)) e c h = ((omega arith, λ same. shows id e c), h)
  issue-Fresh t issued false current e c h = h

  reset-Consistent :
      (s : State C) (issued : List Publish)
      → s.attempt + 1 < 0x1_0000_0000_0000_0000
      → Aged s issued
      → Consistent (reset s).0 (issue (reset s).1 issued)
  unfolding reset
  reset-Consistent s issued h a = (
    silent,
    issue-Fresh (reset s).0 issued s.enabled s.current refl refl
        (outdated s (reset s).0 issued (omega (arith, next_attempt s.attempt h)) a),
  )

  set_enabled-Consistent :
      (s : State C) (issued : List Publish) (enabled : Bool)
      → s.attempt + 1 < 0x1_0000_0000_0000_0000
      → Consistent s issued
      → Consistent (set_enabled s enabled).0 (issue (set_enabled s enabled).1 issued)
  unfolding set_enabled Aged
  set_enabled-Consistent s issued enabled h c = elim (Bool-cases (bool_eq s.enabled enabled)) [
    | inl same ↦ rw same c
    | inr new ↦
        rw new (reset-Consistent (record s { enabled = enabled }) issued h (aged s issued c.1))
  ]

  ended_match :
      (s : State C) (issued : List Publish)
      → s.attempt + 1 < 0x1_0000_0000_0000_0000
      → Aged s issued
      → Consistent (reset (record s { current = none })).0 issued
  unfolding reset
  ended_match s issued h a = (
    silent,
    outdated s (reset (record s { current = none })).0 issued
        (omega (arith, next_attempt s.attempt h)) a,
  )

  end-Consistent :
      (s : State C) (issued : List Publish) (id : ℕ)
      → s.attempt + 1 < 0x1_0000_0000_0000_0000
      → Consistent s issued
      → Consistent (end s id) issued
  unfolding end Aged
  end-Consistent s issued id h c = elim (Bool-cases (is_match id s.current)) [
    | inl current ↦ rw current (ended_match s issued h (aged s issued c.1))
    | inr other ↦ rw other c
  ]

  begin-Consistent :
      (s : State C) (issued : List Publish) (activity : Activity)
      → s.attempt + 1 < 0x1_0000_0000_0000_0000
      → Consistent s issued
      → Consistent (begin s activity).0 (issue (begin s activity).2 issued)
  unfolding begin Aged
  begin-Consistent s issued activity h c =
      let id = u64_next s.last_match in
      reset-Consistent (record s { last_match = id; current = some (id, activity) }) issued h
        (aged s issued c.1)

  connected-Shows :
      (s : State C) (c : Option C) (activity : Activity)
      → Shows activity s
      → Shows activity (record s { connection = c })
  connected-Shows s c activity (shows id e m) = shows id e m

  connected :
      (s : State C) (c : Option C) (issued : List Publish)
      → All (Fresh s) issued
      → All (Fresh (record s { connection = c })) issued
  connected s c [] h = tt
  connected s c (p ∷ issued) h =
      ((h.0.0, λ e. connected-Shows s c p.activity (h.0.1 e)), connected s c issued h.1)

  in_issued :
      (s : State C) (before after : List Publish) (p : Publish)
      → All (Fresh s) (before ++ p ∷ after)
      → Fresh s p
  in_issued s [] after p h = h.0
  in_issued s (q ∷ before) after p h = in_issued s before after p h.1

  keep-Consistent :
      (s : State C) (before after : List Publish) (p : Publish)
      → Consistent s (before ++ p ∷ after)
      → Consistent (keep s p.attempt (opened p.activity)).0 (before ++ p ∷ after)
  unfolding keep
  keep-Consistent s before after p c = elim (Bool-cases (s.attempt == p.attempt)) [
    | inl same ↦
        let c' : Option C = some (opened p.activity) in
        let fresh = in_issued s before after p c.1 in
        rw same (
          held p.activity (
              connected-Shows s c' p.activity
                (fresh.1 (sym ((==_iff s.attempt p.attempt).0 same)))),
          connected s c' (before ++ p ∷ after) c.1,
        )
    | inr stale ↦ rw stale c
  ]

  -- Whatever the order of the transitions and of the exchanges that finish, as long as the counter
  -- of attempts does not wrap around, a connection that is held shows the current match of a player
  -- who shares, and so does every issued exchange that the next `keep` would accept.
  pub Reachable-Consistent :
      (s : State C) (issued : List Publish) → Reachable s issued → Consistent s issued
  Reachable-Consistent _ _ started = (silent, tt)
  Reachable-Consistent _ _ (enabled_set {s} {issued} enabled h r) =
      set_enabled-Consistent s issued enabled h (Reachable-Consistent s issued r)
  Reachable-Consistent _ _ (begun {s} {issued} activity h r) =
      begin-Consistent s issued activity h (Reachable-Consistent s issued r)
  Reachable-Consistent _ _ (ended {s} {issued} id h r) =
      end-Consistent s issued id h (Reachable-Consistent s issued r)
  Reachable-Consistent _ _ (finished {s} before after p r) =
      keep-Consistent s before after p (Reachable-Consistent s (before ++ p ∷ after) r)
