-- ===== src/Discovery/Sweep/Order.antt =====
-- The sort of a sweep's outcomes forgets the order in which the probes ended, as long as no
-- endpoint stands twice.
use mathlib.Core.List.{Permᴰ}
use reveille.Prelude.{◌≡◌, refl, sym, ap, ◌∙◌, ◌≢◌, List, [], ◌∷◌, All, arith, subst}
use reveille.TreeMap.{text_ltb_trans, text_ltb_irrefl, text_ltb_total}
use reveille.Discovery.Probe.Outcome.{ProbeOutcome}
use reveille.Discovery.Sweep.Duplicates.{key, insert_outcome, sort_outcomes}

-- No two outcomes have one endpoint.
abbrev pub HasDistinctEndpoints : List ProbeOutcome → Type 0
HasDistinctEndpoints [] = Unit
HasDistinctEndpoints (o ∷ rest) = All (λ p. key o ≢ key p) rest × HasDistinctEndpoints rest

insert_outcome_comm :
    (x y : ProbeOutcome) (l : List ProbeOutcome)
    → key x ≢ key y
    → insert_outcome x (insert_outcome y l) ≡ insert_outcome y (insert_outcome x l)
unfolding insert_outcome
insert_outcome_comm x y [] d = ground (
  arith,
  text_ltb_total (key x) (key y) d,
  text_ltb_trans (key x) (key y) (key x),
  text_ltb_irrefl (key x),
)
insert_outcome_comm x y (z ∷ l) d = ground (
  arith,
  insert_outcome_comm x y l d,
  text_ltb_total (key x) (key y) d,
  text_ltb_trans (key x) (key y) (key x),
  text_ltb_irrefl (key x),
  text_ltb_trans (key z) (key x) (key y),
  text_ltb_trans (key z) (key y) (key x),
)

pub All-Permᴰ :
    (P : ProbeOutcome → Type 0) {l m : List ProbeOutcome} → Permᴰ l m → All P l → All P m
All-Permᴰ P Permᴰ.nil h = h
All-Permᴰ P (Permᴰ.cons e d) h = (subst P e h.0, All-Permᴰ P d h.1)
All-Permᴰ P (Permᴰ.swap e f) h = (subst P f h.1.0, (subst P e h.0, h.1.1))
All-Permᴰ P (Permᴰ.trans c d) h = All-Permᴰ P d (All-Permᴰ P c h)

Apart : ProbeOutcome → ProbeOutcome → Type 0
Apart a p = key a ≢ key p

HasDistinctEndpoints-Permᴰ :
    {l m : List ProbeOutcome} → Permᴰ l m → HasDistinctEndpoints l → HasDistinctEndpoints m
unfolding Apart
HasDistinctEndpoints-Permᴰ Permᴰ.nil h = h
HasDistinctEndpoints-Permᴰ (Permᴰ.cons {a = a} {l₂ = l₂} e d) h =
    (subst (λ b. All (Apart b) l₂) e (All-Permᴰ (Apart a) d h.0), HasDistinctEndpoints-Permᴰ d h.1)
HasDistinctEndpoints-Permᴰ (Permᴰ.swap {l = l} e f) h = (
  ((λ q. h.0.0 (ap key e ∙ sym q ∙ ap key (sym f))), subst (λ b. All (Apart b) l) f h.1.0),
  (subst (λ b. All (Apart b) l) e h.0.1, h.1.1),
)
HasDistinctEndpoints-Permᴰ (Permᴰ.trans c d) h =
    HasDistinctEndpoints-Permᴰ d (HasDistinctEndpoints-Permᴰ c h)

-- Two lists of the same outcomes, without an endpoint twice, are sorted to one list.
pub sort_outcomes-Permᴰ :
    {l m : List ProbeOutcome}
    → Permᴰ l m
    → HasDistinctEndpoints l
    → sort_outcomes l ≡ sort_outcomes m
unfolding sort_outcomes
sort_outcomes-Permᴰ Permᴰ.nil h = refl
sort_outcomes-Permᴰ (Permᴰ.cons {a = a} {l₂ = l₂} e d) h =
    ap (insert_outcome a) (sort_outcomes-Permᴰ d h.1)
    ∙ ap (λ b. insert_outcome b (sort_outcomes l₂)) e
sort_outcomes-Permᴰ (Permᴰ.swap {a = a} {b = b} {a' = a'} {l = l} e f) h =
    insert_outcome_comm a b (sort_outcomes l) h.0.0
    ∙ ap (λ c. insert_outcome c (insert_outcome a (sort_outcomes l))) f
    ∙ ap (λ c. insert_outcome a' (insert_outcome c (sort_outcomes l))) e
sort_outcomes-Permᴰ (Permᴰ.trans c d) h =
    sort_outcomes-Permᴰ c h ∙ sort_outcomes-Permᴰ d (HasDistinctEndpoints-Permᴰ c h)
