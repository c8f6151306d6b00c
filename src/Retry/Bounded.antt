-- ===== src/Retry/Bounded.antt =====
-- The attempts that a policy makes.
use reveille.Prelude.{
  ℕ, ◌+◌, ◌≤◌, ◌<◌, ◌≡◌, refl, sym, ◌∙◌, ap, Bool, true, false, ◌&&◌, List, [], ◌∷◌, Option, none,
  some, ◌==◌, ltb, length, get_elem?, Result, ok, err, suc, zero, arith, inl, inr, Bool-cases,
  ==_iff, subst,
}
use reveille.Retry.{attempts, is_due, after_attempt, run_loop, run}

pub get_elem?-length :
    (delays : List ℕ) (n : ℕ) (transient : Bool)
    → is_due (get_elem? delays n) transient ≡ (ltb n (length delays) && transient)
get_elem?-length [] n transient = ground arith
get_elem?-length (d ∷ delays) zero transient = ground arith
get_elem?-length (d ∷ delays) (suc n) transient = get_elem?-length delays n transient ∙ ground arith

module _ {E A : Type 0} (is_transient : E → Bool) (attempt : ℕ → Result E A) (delays : List ℕ) where
  -- The attempt failed in a way that may pass.
  abbrev pub failed_transiently : Result E A → Bool
  failed_transiently (ok value) = false
  failed_transiently (err error) = is_transient error

  -- `made` attempts were made from a number on, and the answer is the last one's: each before it
  -- failed transiently, and it is a success, a lasting failure or the last that is allowed.
  pub record IsRun (number : ℕ) (answer : Result E A) (made : ℕ) : Type 0 where
    pub more : number < made
    pub bounded : made ≤ attempts delays
    pub last : (k : ℕ) → made ≡ suc k → answer ≡ attempt k
    pub earlier : (j : ℕ) → number ≤ j → suc j < made → failed_transiently (attempt j) ≡ true
    pub over : failed_transiently answer ≡ true → made ≡ attempts delays

  -- A loop that ended with such a run.
  abbrev pub Ends : ℕ → Option (Result E A × ℕ) → Type 0
  Ends number outcome =
      (answer : Result E A) × ((made : ℕ) × ((outcome ≡ some (answer, made))
          × IsRun number answer made))

  stopped :
      (number : ℕ) (answer : Result E A)
      → number < attempts delays
      → attempt number ≡ answer
      → (failed_transiently answer ≡ true → number + 1 ≡ attempts delays)
      → Ends number (some (answer, number + 1))
  stopped number answer h e over = (
    answer,
    (
      number + 1,
      (
        refl,
        record {
          more = omega arith;
          bounded = omega (arith, h);
          last = λ k m. sym e ∙ ap attempt (omega (arith, m));
          earlier = λ j least most. absurd (omega (arith, least, most));
          over = over;
        },
      ),
    ),
  )

  again :
      (number : ℕ) (outcome : Option (Result E A × ℕ))
      → failed_transiently (attempt number) ≡ true
      → Ends (number + 1) outcome
      → Ends number outcome
  again number outcome h (answer, (made, (e, r))) = (
    answer,
    (
      made,
      (
        e,
        record {
          more = omega (arith, r.more);
          bounded = r.bounded;
          last = r.last;
          earlier = λ j least most. elim (Bool-cases (j == number)) [
            | inl same ↦ ap (λ k. failed_transiently (attempt k)) ((==_iff j number).0 same) ∙ h
            | inr other ↦ r.earlier j (ground arith) most
          ];
          over = r.over;
        },
      ),
    ),
  )

  ends :
      (number : ℕ) (answer : Result E A) (rest : Option (Result E A × ℕ))
      → number < attempts delays
      → attempt number ≡ answer
      → (number + 1 < attempts delays → Ends (number + 1) rest)
      → Ends number (after_attempt is_transient attempt delays number answer rest)
  ends number (ok value) rest h e later = stopped number (ok value) h e (λ f. ground arith)
  ends number (err error) rest h e later =
      let due = get_elem?-length delays number (is_transient error) in
      elim (Bool-cases (ltb number (length delays) && is_transient error)) [
        | inl due_again ↦
            rw (due ∙ due_again)
              (again number rest (ap failed_transiently e ∙ ground arith) (later (ground arith)))
        | inr last_one ↦ rw (due ∙ last_one) (stopped number (err error) h e (λ f. ground arith))
      ]

  run_loop-Ends :
      (fuel number : ℕ)
      → attempts delays ≡ number + suc fuel
      → Ends number (run_loop is_transient attempt delays (suc fuel) number)
  unfolding run_loop
  run_loop-Ends zero number h =
      ends number (attempt number) none (omega (arith, h)) refl (λ m. absurd (omega (arith, h, m)))
  run_loop-Ends (suc fuel) number h =
      ends number (attempt number) (run_loop is_transient attempt delays (suc fuel) (number + 1))
        (omega (arith, h)) refl (λ m. run_loop-Ends fuel (number + 1) (omega (arith, h)))

  -- A policy always ends, after at least one attempt and at most those it allows. The answer is
  -- that of the last attempt made, each one before it failed in a way that may pass, and the answer
  -- is itself such a failure only when no attempt was left.
  pub run-Ends : Ends 0 (run is_transient attempt delays)
  unfolding run
  run-Ends =
      let enough : suc (length delays) ≡ attempts delays = omega arith in
      subst (λ fuel. Ends 0 (run_loop is_transient attempt delays fuel 0)) enough
        (run_loop-Ends (length delays) 0 (omega arith))
