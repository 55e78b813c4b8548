-- ===== src/RetryPolicy/Delays.antt =====
-- The delays between attempts: bounded, growing where there is no jitter, and never past a deadline.
use native.Mathlib.Nat.{pow-suc}
use comfyui_engine.Prelude.{
  ℕ, zero, suc, ◌+◌, ◌*◌, ◌^◌, ◌≤◌, ◌<◌, ◌-◌, ◌≡◌, false, none, some, List, [], ◌∷◌, arith, inl,
  inr, Bool-cases, ◌==◌,
}
use comfyui_engine.Random.{Random}
use comfyui_engine.Deadline.{Var, remaining_time}
use comfyui_engine.RetryPolicy.{
  Policy, Attempt, Attempt-cases, capped_delay, compute_delay, too_late, deadline_stops,
  attempts_from, execute,
}

capped_delay-le : (p : Policy) (n : ℕ) → capped_delay p n ≤ p.max_delay
unfolding capped_delay
capped_delay-le p n = omega arith

-- Every delay is at most the cap, with jitter or without.
pub compute_delay-le-max : (r : Random) (p : Policy) (n : ℕ) → compute_delay r p n ≤ p.max_delay
unfolding compute_delay
compute_delay-le-max r p n = ground (arith, r.uniform-le n 0 (capped_delay p n))

mul-le-mul_factor : (b x f : ℕ) → 0 < f → b * x ≤ b * (x * f)
mul-le-mul_factor b x zero h = absurd (omega arith)
mul-le-mul_factor b x (suc f) h = omega arith

-- Without jitter and with a factor of at least one, no delay is shorter than the one before it.
pub compute_delay_mono :
    (r : Random) (p : Policy) (n : ℕ)
    → p.jitter ≡ false
    → 0 < p.backoff_factor
    → compute_delay r p n ≤ compute_delay r p (suc n)
unfolding compute_delay
compute_delay_mono r p n j f =
    rw (j, pow-suc)
      (omega (arith, mul-le-mul_factor p.base_delay (p.backoff_factor ^ n) p.backoff_factor f))

-- A delay that is decided at a clock reading is at most the cap, and under a deadline it ends no
-- later than the deadline.
abbrev pub IsTimely : Policy → Var → ℕ → ℕ → Type 0
IsTimely p none now delay = delay ≤ p.max_delay
IsTimely p (some dl) now delay = (delay ≤ p.max_delay) × (now + delay ≤ dl)

-- The delays of a list are timely, the first of them slept after the given attempt.
abbrev pub AreTimely : Policy → (ℕ → ℕ) → Var → ℕ → List ℕ → Type 0
AreTimely p clock var attempt [] = Unit
AreTimely p clock var attempt (d ∷ ds) =
    IsTimely p var (clock attempt) d × AreTimely p clock var (attempt + 1) ds

not-too_late-IsTimely :
    (r : Random) (p : Policy) (var : Var) (now n : ℕ)
    → too_late (remaining_time now var) (compute_delay r p n) ≡ false
    → IsTimely p var now (compute_delay r p n)
unfolding too_late remaining_time
not-too_late-IsTimely r p none now n h = compute_delay-le-max r p n
not-too_late-IsTimely r p (some dl) now n h = ground (arith, compute_delay-le-max r p n)

module _ {E A : Type 0} (r : Random) (p : Policy) (clock : ℕ → ℕ) (var : Var) where
  attempts_from-AreTimely :
      (run : ℕ → Attempt E A) (rounds attempt : ℕ) (last : E)
      → AreTimely p clock var attempt (attempts_from r p clock var run rounds attempt last).1
  unfolding attempts_from
  attempts_from-AreTimely run zero attempt last = tt
  attempts_from-AreTimely run (suc rounds) attempt last = elim (Attempt-cases (run attempt)) [
    | inl (a, x) ↦ rw (x, attempts_from) tt
    | inr (inl (e, x)) ↦ rw (x, attempts_from) tt
    | inr (inr (e, x)) ↦
        rw (x, attempts_from)
          (elim (Bool-cases (attempt == p.max_attempts - 1)) [
            | inl end ↦ rw end tt
            | inr more ↦ rw more (elim (Bool-cases (deadline_stops r p clock var attempt)) [
              | inl late ↦ rw late tt
              | inr soon ↦ rw soon (
                not-too_late-IsTimely r p var (clock attempt) attempt soon,
                attempts_from-AreTimely run rounds (attempt + 1) e,
              )
            ])
          ])
  ]

  -- Every delay that `execute` sleeps is at most `max_delay`, and where a deadline is in force it
  -- ends, from the clock reading at which it was decided, no later than the deadline.
  pub execute-AreTimely :
      (run : ℕ → Attempt E A) (no_attempts : E)
      → AreTimely p clock var 0 (execute r p clock var run no_attempts).1
  unfolding execute
  execute-AreTimely run no_attempts = attempts_from-AreTimely run p.max_attempts 0 no_attempts
