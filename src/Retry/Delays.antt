-- ===== src/Retry/Delays.antt =====
-- The delays between retries stay in their range under every strategy.
use comfyui_engine.Prelude.{
  ℕ, zero, suc, ◌+◌, ◌*◌, ◌^◌, min, ◌≤◌, ◌≡◌, Option, none, some, arith, inl, inr, Bool-cases, All,
  ◌==◌,
}
use comfyui_engine.Random.{Random}
use comfyui_engine.RetryPolicy.{Attempt, Attempt-cases}
use comfyui_engine.Retry.{
  Strategy, full_jitter, decorrelated_jitter, Config, compute_delay, delay_after, refuses, or_else,
  attempts_from, with_retry,
}

pub compute_delay-le-max :
    (r : Random) (s : Strategy) (n base exp max_d prev : ℕ)
    → compute_delay r s n base exp max_d prev ≤ max_d
unfolding compute_delay
compute_delay-le-max r full_jitter n base exp max_d prev =
    omega (arith, r.uniform-le n 0 (min max_d (base * exp ^ n)))
compute_delay-le-max r _ n base exp max_d prev = omega arith

-- With decorrelated jitter a delay is at least the base, if the base is at most the cap and the
-- delay before was at least the base, and it is at most three times the delay before.
pub decorrelated_range :
    (r : Random) (n base exp max_d prev : ℕ)
    → base ≤ max_d
    → base ≤ prev
    → (base ≤ compute_delay r decorrelated_jitter n base exp max_d prev)
      × (compute_delay r decorrelated_jitter n base exp max_d prev ≤ prev * 3)
unfolding compute_delay
decorrelated_range r n base exp max_d prev h k = (
  omega (arith, r.uniform-ge n base (min max_d (prev * 3))),
  omega (arith, r.uniform-le n base (min max_d (prev * 3))),
)

-- A delay is at most the cap, and under decorrelated jitter at least the base.
abbrev pub InRange : Config → ℕ → Type 0
InRange c d = (d ≤ c.max_delay) × (c.strategy ≡ decorrelated_jitter → c.base_delay ≤ d)

delay_after-InRange :
    (r : Random) (c : Config) (n prev : ℕ)
    → c.base_delay ≤ c.max_delay
    → (c.strategy ≡ decorrelated_jitter → c.base_delay ≤ prev)
    → InRange c (delay_after r c n prev)
unfolding delay_after
delay_after-InRange r c n prev h k = (
  compute_delay-le-max r c.strategy n c.base_delay c.exponential_base c.max_delay prev,
  λ e. rw e (decorrelated_range r n c.base_delay c.exponential_base c.max_delay prev h (k e)).0,
)

module _ {E A : Type 0} (r : Random) (c : Config) (status_of : E → Option ℕ) (run : ℕ → Attempt E A)
    (base_in : c.base_delay ≤ c.max_delay) where
  attempts_from-InRange :
      (rounds n prev : ℕ) (first : Option E) (last : E)
      → (c.strategy ≡ decorrelated_jitter → c.base_delay ≤ prev)
      → All (InRange c) (attempts_from r c status_of run rounds n prev first last).1
  unfolding attempts_from
  attempts_from-InRange zero n prev first last k = tt
  attempts_from-InRange (suc rounds) n prev first last k = elim (Attempt-cases (run n)) [
    | inl (a, x) ↦ rw (x, attempts_from) tt
    | inr (inl (e, x)) ↦ rw (x, attempts_from) tt
    | inr (inr (e, x)) ↦
        rw (x, attempts_from)
          (elim (Bool-cases (n == c.max_retries)) [
            | inl end ↦ rw end tt
            | inr more ↦ rw more (elim (Bool-cases (refuses c (status_of e))) [
              | inl no_retry ↦ rw no_retry tt
              | inr retry ↦
                  let d = delay_after-InRange r c n prev base_in k in
                  rw retry (
                    d,
                    attempts_from-InRange rounds (n + 1) (delay_after r c n prev)
                        (some (or_else first e)) e d.1,
                  )
            ])
          ])
  ]

  -- If the base delay is at most the cap, every delay that `with_retry` sleeps is at most the cap,
  -- and with decorrelated jitter at least the base.
  pub with_retry-InRange : (initial : E) → All (InRange c) (with_retry r c status_of run initial).1
  unfolding with_retry
  with_retry-InRange initial =
      attempts_from-InRange (suc c.max_retries) 0 c.base_delay none initial (λ e. omega arith)
