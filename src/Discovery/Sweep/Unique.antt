-- ===== src/Discovery/Sweep/Unique.antt =====
-- A report names each game endpoint once, and loses neither a registration nor an endpoint.
use mathlib.Core.List.{Permᴰ}
use mathlib.Core.List.Permᴰ
use reveille.Prelude.{
  ◌≡◌, refl, sym, ap, ◌∙◌, subst, Bool, true, false, ◌||◌, not, List, [], ◌∷◌, map, All, any,
  Option, none, some, filter_map, opt_map, map_or, arith, inl, inr, Bool-cases,
}
use reveille.Text.{is_some}
use reveille.TreeMap.{text_ltb}
use reveille.Discovery.Server.{Server}
use reveille.Discovery.Probe.Outcome.{ProbeOutcome}
use reveille.Discovery.Sweep.Duplicates.{
  key, insert_outcome, sort_outcomes, GameEndpoint, game_endpoint, same_endpoint, has_seen,
  demote_step, demote_seen, record_duplicate_game_endpoints,
}
use reveille.Discovery.Sweep.Order.{All-Permᴰ}

-- The game endpoints of the complete servers.
abbrev pub served : ProbeOutcome → Option GameEndpoint
served o = opt_map game_endpoint o.server

abbrev pub served_endpoints : List ProbeOutcome → List GameEndpoint
served_endpoints = filter_map served

-- Each is unlike those before it.
abbrev pub IsFresh : List GameEndpoint → List GameEndpoint → Type 0
IsFresh seen [] = Unit
IsFresh seen (x ∷ xs) = (has_seen x seen ≡ false) × IsFresh (x ∷ seen) xs

-- A server or a reason, never both.
abbrev pub IsEither : ProbeOutcome → Type 0
IsEither o = is_some o.server ≡ not (is_some o.non_result)

insert_outcome-Permᴰ :
    (o : ProbeOutcome) (l : List ProbeOutcome) → Permᴰ (insert_outcome o l) (o ∷ l)
unfolding insert_outcome
insert_outcome-Permᴰ o [] = Permᴰ.refl (o ∷ [])
insert_outcome-Permᴰ o (p ∷ rest) = elim (Bool-cases (text_ltb (key p) (key o))) [
  | inl below ↦
      rw below (Permᴰ.trans (Permᴰ.cons refl (insert_outcome-Permᴰ o rest)) (Permᴰ.swap refl refl))
  | inr first ↦ rw first (Permᴰ.refl (o ∷ p ∷ rest))
]

pub sort_outcomes-Perm : (l : List ProbeOutcome) → Permᴰ (sort_outcomes l) l
unfolding sort_outcomes
sort_outcomes-Perm [] = Permᴰ.nil
sort_outcomes-Perm (o ∷ rest) =
    Permᴰ.trans (insert_outcome-Permᴰ o (sort_outcomes rest))
      (Permᴰ.cons refl (sort_outcomes-Perm rest))

pub same_endpoint_refl : (x : GameEndpoint) → same_endpoint x x ≡ true
unfolding same_endpoint
same_endpoint_refl x = ground arith

pub same_endpoint_comm : (x y : GameEndpoint) → same_endpoint x y ≡ true → same_endpoint y x ≡ true
unfolding same_endpoint
same_endpoint_comm x y h = ground arith

pub same_endpoint_trans :
    (x y z : GameEndpoint)
    → same_endpoint x y ≡ true
    → same_endpoint y z ≡ true
    → same_endpoint x z ≡ true
unfolding same_endpoint
same_endpoint_trans x y z h k = ground arith

pub has_seen_trans :
    (x y : GameEndpoint) (seen : List GameEndpoint)
    → same_endpoint x y ≡ true
    → has_seen y seen ≡ true
    → has_seen x seen ≡ true
has_seen_trans x y [] h k = k
has_seen_trans x y (z ∷ seen) h k =
    ground (arith, same_endpoint_trans x y z h, has_seen_trans x y seen h)

any-Permᴰ : (p : ProbeOutcome → Bool) {l m : List ProbeOutcome} → Permᴰ l m → any p l ≡ any p m
any-Permᴰ p Permᴰ.nil = refl
any-Permᴰ p (Permᴰ.cons {b = b} {l₁ = l} e d) =
    ap (λ c. p c || any p l) e ∙ ap (λ rest. p b || rest) (any-Permᴰ p d)
any-Permᴰ p (Permᴰ.swap {a = a} {b = b} {b' = b'} {l = l} e f) =
    or_comm (p a) (p b) (any p l)
    ∙ ap (λ c. p b || (p c || any p l)) e
    ∙ ap (λ c. p c || (p b' || any p l)) f
  where
    or_comm : (a b c : Bool) → (a || (b || c)) ≡ (b || (a || c))
    or_comm a b c = ground arith
any-Permᴰ p (Permᴰ.trans c d) = any-Permᴰ p c ∙ any-Permᴰ p d

-- The outcome is a complete server at this game endpoint.
abbrev pub serves : GameEndpoint → ProbeOutcome → Bool
serves x o = map_or (served o) false (same_endpoint x)

-- What a step does, by the server of its outcome.
step-endpoint :
    (o : ProbeOutcome) (server : Option Server) (seen : List GameEndpoint)
    → (demote_step o server seen).0.endpoint ≡ o.endpoint
unfolding demote_step
step-endpoint o none seen = refl
step-endpoint o (some s) seen = elim (Bool-cases (has_seen (game_endpoint s) seen)) [
  | inl again ↦ rw again refl
  | inr new ↦ rw new refl
]

step-IsEither :
    (o : ProbeOutcome) (server : Option Server) (seen : List GameEndpoint)
    → IsEither o
    → IsEither (demote_step o server seen).0
unfolding demote_step
step-IsEither o none seen h = h
step-IsEither o (some s) seen h = elim (Bool-cases (has_seen (game_endpoint s) seen)) [
  | inl again ↦ rw again refl
  | inr new ↦ rw new h
]

step-IsFresh :
    (o : ProbeOutcome) (server : Option Server) (seen : List GameEndpoint)
    (rest : List ProbeOutcome)
    → o.server ≡ server
    → IsFresh (demote_step o server seen).1 (served_endpoints rest)
    → IsFresh seen (served_endpoints ((demote_step o server seen).0 ∷ rest))
unfolding demote_step
step-IsFresh o none seen rest e h = rw e h
step-IsFresh o (some s) seen rest e h = elim (Bool-cases (has_seen (game_endpoint s) seen)) [
  | inl again ↦ rw again (rw again at h)
  | inr new ↦ rw (new, e) (new, rw new at h)
]

or_again :
    (a b s r : Bool)
    → (a || b) ≡ true
    → (b ≡ true → (s || r) ≡ true)
    → (a ≡ true → s ≡ true)
    → (s || r) ≡ true
or_again a b s r m ih t = ground arith

or_new :
    (a b s r : Bool)
    → (a || b) ≡ true
    → (b ≡ true → ((a || s) || r) ≡ true)
    → (s || (a || r)) ≡ true
or_new a b s r m ih = ground arith

step-serves :
    (x : GameEndpoint) (o : ProbeOutcome) (server : Option Server) (seen : List GameEndpoint)
    (os rest : List ProbeOutcome)
    → o.server ≡ server
    → any (serves x) (o ∷ os) ≡ true
    → (any (serves x) os ≡ true
        → (has_seen x (demote_step o server seen).1 || any (serves x) rest) ≡ true)
    → (has_seen x seen || any (serves x) ((demote_step o server seen).0 ∷ rest)) ≡ true
unfolding demote_step
step-serves x o none seen os rest e h ih = rw e (ih (rw e at h))
step-serves x o (some s) seen os rest e h ih =
    let m : (same_endpoint x (game_endpoint s) || any (serves x) os) ≡ true = rw e at h in
    elim (Bool-cases (has_seen (game_endpoint s) seen)) [
      | inl again ↦ rw again (
          or_again (same_endpoint x (game_endpoint s)) (any (serves x) os) (has_seen x seen)
            (any (serves x) rest) m (rw again at ih)
            (λ same. has_seen_trans x (game_endpoint s) seen same again))
      | inr new ↦
          rw (new, e)
            (or_new (same_endpoint x (game_endpoint s)) (any (serves x) os) (has_seen x seen)
              (any (serves x) rest) m (rw new at ih))
    ]

demote_seen-IsFresh :
    (seen : List GameEndpoint) (os : List ProbeOutcome)
    → IsFresh seen (served_endpoints (demote_seen seen os))
unfolding demote_seen
demote_seen-IsFresh seen [] = tt
demote_seen-IsFresh seen (o ∷ os) =
    let later = (demote_step o o.server seen).1 in
    step-IsFresh o o.server seen (demote_seen later os) refl (demote_seen-IsFresh later os)

demote_seen-serves :
    (x : GameEndpoint) (seen : List GameEndpoint) (os : List ProbeOutcome)
    → any (serves x) os ≡ true
    → (has_seen x seen || any (serves x) (demote_seen seen os)) ≡ true
unfolding demote_seen
demote_seen-serves x seen [] h = ground arith
demote_seen-serves x seen (o ∷ os) h =
    let later = (demote_step o o.server seen).1 in
    step-serves x o o.server seen os (demote_seen later os) refl h (demote_seen-serves x later os)

demote_seen-endpoints :
    (seen : List GameEndpoint) (os : List ProbeOutcome)
    → map (λ o. o.endpoint) (demote_seen seen os) ≡ map (λ o. o.endpoint) os
unfolding demote_seen
demote_seen-endpoints seen [] = refl
demote_seen-endpoints seen (o ∷ os) =
    ap (λ e. e ∷ map (λ p. p.endpoint) (demote_seen (demote_step o o.server seen).1 os))
      (step-endpoint o o.server seen)
    ∙ ap (◌∷◌ o.endpoint) (demote_seen-endpoints (demote_step o o.server seen).1 os)

demote_seen-IsEither :
    (seen : List GameEndpoint) (os : List ProbeOutcome)
    → All IsEither os
    → All IsEither (demote_seen seen os)
unfolding demote_seen
demote_seen-IsEither seen [] h = tt
demote_seen-IsEither seen (o ∷ os) h =
    (step-IsEither o o.server seen h.0, demote_seen-IsEither (demote_step o o.server seen).1 os h.1)

map-Permᴰ :
    {B : Type 0} (f : ProbeOutcome → B) {l m : List ProbeOutcome}
    → Permᴰ l m
    → Permᴰ (map f l) (map f m)
map-Permᴰ f Permᴰ.nil = Permᴰ.nil
map-Permᴰ f (Permᴰ.cons e d) = Permᴰ.cons (ap f e) (map-Permᴰ f d)
map-Permᴰ f (Permᴰ.swap e g) = Permᴰ.swap (ap f e) (ap f g)
map-Permᴰ f (Permᴰ.trans c d) = Permᴰ.trans (map-Permᴰ f c) (map-Permᴰ f d)

-- What the outcomes of a report keep of those that were collected.
pub record Condenses (collected reported : List ProbeOutcome) : Type 0 where
  pub unique : IsFresh [] (served_endpoints reported)
  pub lossless :
      (x : GameEndpoint) → any (serves x) collected ≡ true → any (serves x) reported ≡ true
  pub registrations : Permᴰ (map (λ o. o.endpoint) reported) (map (λ o. o.endpoint) collected)
  pub either : All IsEither collected → All IsEither reported

-- The outcomes of a report name no game endpoint twice, and name each one that any collected
-- outcome serves. They hold every registration that was collected, as often. If each collected
-- outcome is either a server or a reason, so is each reported one.
pub record_duplicate_game_endpoints-Condenses :
    (collected : List ProbeOutcome)
    → Condenses collected (record_duplicate_game_endpoints collected)
unfolding record_duplicate_game_endpoints
record_duplicate_game_endpoints-Condenses collected =
    let sorted = sort_outcomes collected in
    let same : Permᴰ sorted collected = sort_outcomes-Perm collected in
    record {
      unique = demote_seen-IsFresh [] sorted;
      lossless = λ x h. demote_seen-serves x [] sorted (any-Permᴰ (serves x) same ∙ h);
      registrations =
          subst (λ l. Permᴰ l (map (λ o. o.endpoint) collected))
            (sym (demote_seen-endpoints [] sorted)) (map-Permᴰ (λ o. o.endpoint) same);
      either = λ h. demote_seen-IsEither [] sorted (All-Permᴰ IsEither (Permᴰ.symm same) h);
    }
