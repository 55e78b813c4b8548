-- ===== src/RetryPolicy.antt =====
-- engine/retry_policy.py: full-jitter back-off with awareness of the deadline. Delays and clock
-- readings are whole ticks, and the back-off factor is a whole number. `E` is the type of the
-- exceptions, `A` of the results. The outcome of each attempt, and the clock after it, are
-- functions of the attempt's number; the draws of `random.uniform` are those of a `Random`.
pub mod Delays
pub mod Attempts
use comfyui_engine.Prelude.{
  ℕ, zero, suc, ◌+◌, ◌-◌, ◌*◌, ◌^◌, min, Bool, true, false, Option, none, some, List, [], ◌∷◌, ℤ,
  pos, ltb_ℤ, ltb, ◌==◌, if◌then◌else◌, ◌≡◌, refl, ◌⊎◌, inl, inr,
}
use comfyui_engine.Random.{Random}
use comfyui_engine.Deadline.{Var, remaining_time}

pub record Policy : Type 0 where
  pub max_attempts : ℕ
  pub base_delay : ℕ
  pub max_delay : ℕ
  pub backoff_factor : ℕ
  pub jitter : Bool

-- The constructor raises `ValueError` (`none` here) for fewer than one attempt.
unfoldable pub make : Policy → Option Policy
make p = if ltb p.max_attempts 1 then none else some p

-- One run of the function: it returns, it raises one of the policy's retryable exceptions, or it
-- raises another.
pub data Attempt (E A : Type 0) : Type 0 where
  returned : A → Attempt E A
  retryable : E → Attempt E A
  other : E → Attempt E A

pub Attempt-cases :
    {E A : Type 0} (x : Attempt E A)
    → ((a : A) × (x ≡ returned a)) ⊎ ((e : E) × (x ≡ other e)) ⊎ ((e : E) × (x ≡ retryable e))
Attempt-cases (returned a) = inl (a, refl)
Attempt-cases (other e) = inr (inl (e, refl))
Attempt-cases (retryable e) = inr (inr (e, refl))

-- What `execute` ends with: a value, `RetryExhaustedError`, or an exception that passes through.
pub data Ending (E A : Type 0) : Type 0 where
  value : A → Ending E A
  exhausted : ℕ → E → Ending E A
  escaped : E → Ending E A

pub capped_delay : Policy → ℕ → ℕ
capped_delay p attempt = min (p.base_delay * p.backoff_factor ^ attempt) p.max_delay

pub compute_delay : Random → Policy → ℕ → ℕ
unfolding capped_delay
compute_delay r p attempt =
    let capped = capped_delay p attempt in if p.jitter then r.uniform attempt 0 capped else capped

-- `rem is not None and rem < delay`
pub too_late : Option ℤ → ℕ → Bool
too_late none delay = false
too_late (some rem) delay = ltb_ℤ rem (pos delay)

-- The test of the deadline after a failed attempt.
abbrev pub deadline_stops : Random → Policy → (ℕ → ℕ) → Var → ℕ → Bool
deadline_stops r p clock var attempt =
    too_late (remaining_time (clock attempt) var) (compute_delay r p attempt)

module _ {E A : Type 0} (r : Random) (p : Policy) (clock : ℕ → ℕ) (var : Var) where
  -- The loop from an attempt on, with the rounds that are left and the last exception. With the
  -- ending come the delays that were slept.
  pub attempts_from : (run : ℕ → Attempt E A) → ℕ → ℕ → E → Ending E A × List ℕ
  unfolding compute_delay too_late remaining_time
  attempts_from run zero attempt last = (exhausted attempt last, [])
  attempts_from run (suc rounds) attempt last = elim (run attempt) [
    | returned a ↦ (value a, [])
    | other e ↦ (escaped e, [])
    | retryable e ↦
        let delay = compute_delay r p attempt in
        let rest = attempts_from run rounds (attempt + 1) e in
        if attempt == p.max_attempts - 1
        then (exhausted (attempt + 1) e, [])
        else if deadline_stops r p clock var attempt
        then (exhausted (attempt + 1) e, [])
        else (rest.0, delay ∷ rest.1)
  ]

  -- `execute`; the last exception starts as `RuntimeError("no attempts made")`.
  unfoldable pub execute : (run : ℕ → Attempt E A) → E → Ending E A × List ℕ
  unfolding attempts_from
  execute run no_attempts = attempts_from run p.max_attempts 0 no_attempts
