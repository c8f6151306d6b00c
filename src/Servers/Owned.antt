-- ===== src/Servers/Owned.antt =====
-- What a sweep and the ends of joins leave of an endpoint that a join owns.
use reveille.Prelude.{
  ℕ, suc, ◌+◌, ◌<◌, if◌then◌else◌, ◌≡◌, refl, ap, Bool, true, false, not, List, [], ◌∷◌, ◌++◌, some,
  map, filter, find, arith, inl, inr, Bool-cases,
}
use reveille.Discovery.Server.{Server}
use reveille.Discovery.Sweep.Duplicates.{GameEndpoint, game_endpoint, same_endpoint, has_seen}
use reveille.Discovery.Sweep.Unique.{same_endpoint_comm, same_endpoint_trans, has_seen_trans}
use reveille.Servers.{at_endpoint, add_join, end_join, is_in, swept}

module _ {A : Type 0} (p q : A → Bool) where
  find-filter :
      (xs ys : List A) (x : A)
      → find p xs ≡ some x
      → ((y : A) → p y ≡ true → q y ≡ true)
      → find p (filter q xs ++ ys) ≡ some x
  find-filter [] ys x h k = ground arith
  find-filter (z ∷ xs) ys x h k = ground (arith, k z, find-filter xs ys x)

module _ (address : GameEndpoint) where
  -- A server at the address is among those that a check or a join owns.
  owned-is_in :
      (checked : List GameEndpoint) (s : Server)
      → has_seen address checked ≡ true
      → at_endpoint address s ≡ true
      → is_in checked s ≡ true
  owned-is_in checked s h a = has_seen_trans (game_endpoint s) address checked a h

  -- No server that a sweep may add is at the address.
  fresh-elsewhere :
      (checked : List GameEndpoint) (s : Server) (incoming : List Server)
      → has_seen address checked ≡ true
      → at_endpoint address s ≡ true
      → is_in (map game_endpoint (filter (λ t. not (is_in checked t)) incoming)) s ≡ false
  fresh-elsewhere checked s [] h a = refl
  fresh-elsewhere checked s (t ∷ incoming) h a = elim (Bool-cases (is_in checked t)) [
    | inl mine ↦ rw mine (fresh-elsewhere checked s incoming h a)
    | inr fresh ↦ rw fresh (elim (Bool-cases (same_endpoint (game_endpoint s) (game_endpoint t))) [
      | inl same ↦ cc (
          owned-is_in checked t h (
            same_endpoint_trans (game_endpoint t) (game_endpoint s) address
              (same_endpoint_comm (game_endpoint s) (game_endpoint t) same) a))
      | inr apart ↦ rw apart (fresh-elsewhere checked s incoming h a)
    ])
  ]

  pub find-swept :
      (replace : Bool) (checked : List GameEndpoint) (incoming servers : List Server) (s : Server)
      → has_seen address checked ≡ true
      → find (at_endpoint address) servers ≡ some s
      → find (at_endpoint address) (swept replace checked incoming servers) ≡ some s
  unfolding swept
  find-swept true checked incoming servers s h f =
      find-filter (at_endpoint address) (is_in checked) servers _ s f
        (λ t a. owned-is_in checked t h a)
  find-swept false checked incoming servers s h f =
      find-filter (at_endpoint address) _ servers _ s f
        (λ t a. ap not (fresh-elsewhere checked t incoming h a))

  abbrev pub is_joining : List (GameEndpoint × ℕ) → Bool
  is_joining joining = has_seen address (map (λ j. j.0) joining)

  -- How many joins at the address the list counts.
  abbrev pub joins_at : List (GameEndpoint × ℕ) → ℕ
  joins_at [] = 0
  joins_at ((a, n) ∷ rest) =
      let later = joins_at rest in if same_endpoint address a then n else later

  pub is_joining-joins_at :
      (joining : List (GameEndpoint × ℕ)) → 0 < joins_at joining → is_joining joining ≡ true
  is_joining-joins_at [] h = ground arith
  is_joining-joins_at ((a, n) ∷ rest) h = elim (Bool-cases (same_endpoint address a)) [
    | inl here ↦ rw here refl
    | inr there ↦ rw there (is_joining-joins_at rest (rw there at h))
  ]

  apart :
      (a other : GameEndpoint)
      → same_endpoint address other ≡ false
      → same_endpoint a other ≡ true
      → same_endpoint address a ≡ false
  apart a other d same = elim (Bool-cases (same_endpoint address a)) [
    | inl here ↦ cc (same_endpoint_trans address a other here same)
    | inr there ↦ there
  ]

  pub together :
      (a other : GameEndpoint)
      → same_endpoint address other ≡ true
      → same_endpoint a other ≡ same_endpoint address a
  together a other e = elim (Bool-cases (same_endpoint address a)) [
    | inl here ↦ rw here (same_endpoint_trans a address other (same_endpoint_comm address a here) e)
    | inr there ↦ elim (Bool-cases (same_endpoint a other)) [
      | inl same ↦ cc (same_endpoint_trans address other a e (same_endpoint_comm a other same))
      | inr far ↦ rw there far
    ]
  ]

  -- The count after one more join at an endpoint, and after one less.
  pub joins_at-add_join :
      (other : GameEndpoint) (joining : List (GameEndpoint × ℕ))
      → joins_at (add_join other joining)
        ≡ (if same_endpoint address other then joins_at joining + 1 else joins_at joining)
  unfolding add_join
  joins_at-add_join other [] = ground arith
  joins_at-add_join other ((a, n) ∷ rest) = elim (Bool-cases (same_endpoint address other)) [
    | inl here ↦ ground (arith, joins_at-add_join other rest, together a other here, here)
    | inr there ↦ ground (arith, joins_at-add_join other rest, apart a other there, there)
  ]

  pub joins_at-end_join_elsewhere :
      (other : GameEndpoint) (joining : List (GameEndpoint × ℕ))
      → same_endpoint address other ≡ false
      → joins_at (end_join other joining) ≡ joins_at joining
  unfolding end_join
  joins_at-end_join_elsewhere other [] d = refl
  joins_at-end_join_elsewhere other ((a, n) ∷ rest) d =
      ground (arith, joins_at-end_join_elsewhere other rest d, apart a other d)

  pub joins_at-end_join :
      (other : GameEndpoint) (joining : List (GameEndpoint × ℕ)) (k : ℕ)
      → same_endpoint address other ≡ true
      → suc k < joins_at joining
      → k < joins_at (end_join other joining)
  unfolding end_join
  joins_at-end_join other [] k e h = ground arith
  joins_at-end_join other ((a, n) ∷ rest) k e h =
      ground (arith, joins_at-end_join other rest k e, together a other e, h)
