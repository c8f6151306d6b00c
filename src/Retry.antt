-- ===== src/Retry.antt =====
-- crates/reveille-core/src/retry.rs: bounded retries. The network is a parameter: what the attempt
-- of a number answers. A wait changes no state, so a policy is the list of its delays.
pub mod Bounded
use reveille.Prelude.{
  ℕ, ◌+◌, Bool, true, false, not, ◌&&◌, ◌||◌, List, [], ◌∷◌, Option, none, some, ◌==◌,
  if◌then◌else◌, within, length, get_elem?, Result, ok, err, suc, zero,
}

-- `RetryPolicy::DOWNLOAD`, in seconds.
abbrev pub download : List ℕ
download = 1 ∷ 3 ∷ 10 ∷ []

-- `RetryPolicy::MASTER`
abbrev pub master : List ℕ
master = 1 ∷ 3 ∷ []

-- `RetryPolicy::NONE`
abbrev pub never : List ℕ
never = []

-- `RetryPolicy::attempts`
abbrev pub attempts : List ℕ → ℕ
attempts delays = length delays + 1

abbrev pub is_due : Option ℕ → Bool → Bool
is_due none transient = false
is_due (some delay) transient = transient

-- `RetryPolicy::wait_before_retry`
abbrev pub wait_before_retry : List ℕ → ℕ → Bool → Bool
wait_before_retry delays failed transient = is_due (get_elem? delays failed) transient

module _ {E A : Type 0} (is_transient : E → Bool) (attempt : ℕ → Result E A) (delays : List ℕ) where
  -- The answer of an attempt that is the last one, or the rest of the loop.
  abbrev pub after_attempt : ℕ → Result E A → Option (Result E A × ℕ) → Option (Result E A × ℕ)
  after_attempt number (ok value) rest = some (ok value, number + 1)
  after_attempt number (err error) rest =
      if wait_before_retry delays number (is_transient error)
      then rest
      else some (err error, number + 1)

  -- The loop of `run` from an attempt's number, on fuel, with the attempts that were made.
  unfoldable pub run_loop : ℕ → ℕ → Option (Result E A × ℕ)
  run_loop zero number = none
  run_loop (suc fuel) number =
      let rest = run_loop fuel (number + 1) in after_attempt number (attempt number) rest

  -- `RetryPolicy::run`
  unfoldable pub run : Option (Result E A × ℕ)
  unfolding run_loop
  run = run_loop (attempts delays) 0

-- `transient_status`
abbrev pub transient_status : ℕ → Bool
transient_status status =
    status == 408
    || status == 425
    || status == 429
    || (within 500 599 status && not (status == 501))
