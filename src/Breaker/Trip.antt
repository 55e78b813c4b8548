-- ===== src/Breaker/Trip.antt =====
-- When the breaker trips, and what an open breaker refuses.
use comfyui_engine.Prelude.{
  ℕ, suc, ◌+◌, ◌<◌, ◌≡◌, refl, false, some, List, [], ◌∷◌, arith, length, All,
}
use comfyui_engine.Breaker.{Config, Breaker, closed, open_circuit, call, run, Outcome, raises}

-- Calls at the first times whose coroutines raise at the second ones.
abbrev pub failing : List (ℕ × ℕ) → List (ℕ × Outcome)
failing [] = []
failing ((now, at) ∷ l) = (now, raises at) ∷ failing l

-- A failing call of a closed breaker that stays below the threshold.
call_below :
    (c : Config) (now at : ℕ) (b : Breaker)
    → b.state ≡ closed
    → b.failures + 1 < c.failure_threshold
    → ((call c now (raises at) b).0.state ≡ closed)
      × ((call c now (raises at) b).0.failures ≡ b.failures + 1)
      × ((call c now (raises at) b).0.trips ≡ b.trips)
unfolding call
call_below c now at b h lt = ground arith

run_below :
    (c : Config) (ps : List (ℕ × ℕ)) (b : Breaker)
    → b.state ≡ closed
    → b.failures + length ps < c.failure_threshold
    → ((run c (failing ps) b).0.state ≡ closed)
      × ((run c (failing ps) b).0.failures ≡ b.failures + length ps)
      × ((run c (failing ps) b).0.trips ≡ b.trips)
unfolding run
run_below c [] b h lt = (h, omega arith, refl)
run_below c ((now, at) ∷ ps) b h lt =
    let (st, f, tr) = call_below c now at b h (omega arith) in
    let (st', f', tr') = run_below c ps (call c now (raises at) b).0 st (omega arith) in
    (st', omega arith, omega arith)

call_trips :
    (c : Config) (now at : ℕ) (b : Breaker)
    → b.state ≡ closed
    → b.failures + 1 ≡ c.failure_threshold
    → ((call c now (raises at) b).0.state ≡ open_circuit)
      × ((call c now (raises at) b).0.last_failure_time ≡ some at)
      × ((call c now (raises at) b).0.trips ≡ b.trips + 1)
unfolding call
call_trips c now at b h e = ground arith

-- Calls one after the other that all fail, from a closed breaker whose failures and theirs add up
-- to one less than the threshold, leave it closed with no trip; one more failing call opens it,
-- stamps it with the time of that failure and counts one trip.
pub run_trips :
    (c : Config) (ps : List (ℕ × ℕ)) (now at : ℕ) (b : Breaker)
    → b.state ≡ closed
    → b.failures + suc (length ps) ≡ c.failure_threshold
    → ((run c (failing ps) b).0.state ≡ closed)
      × ((run c (failing ps) b).0.trips ≡ b.trips)
      × ((call c now (raises at) (run c (failing ps) b).0).0.state ≡ open_circuit)
      × ((call c now (raises at) (run c (failing ps) b).0).0.last_failure_time ≡ some at)
      × ((call c now (raises at) (run c (failing ps) b).0).0.trips ≡ b.trips + 1)
run_trips c ps now at b h e =
    let (st, f, tr) = run_below c ps b h (omega arith) in
    let (st', l, tr') = call_trips c now at (run c (failing ps) b).0 st (omega arith) in
    (st, tr, st', l, omega arith)

call_open :
    (c : Config) (now : ℕ) (out : Outcome) (b : Breaker) {t : ℕ}
    → b.state ≡ open_circuit
    → b.last_failure_time ≡ some t
    → now < t + c.recovery_timeout
    → call c now out b ≡ (b, false)
unfolding call
call_open c now out b h e lt = ground arith

-- While an open breaker's timeout since its last failure has not passed, any sequence of calls,
-- whatever their coroutines would do, changes nothing and runs none of the coroutines.
run_open :
    (c : Config) (calls : List (ℕ × Outcome)) (b : Breaker) {t : ℕ}
    → b.state ≡ open_circuit
    → b.last_failure_time ≡ some t
    → All (λ (p : ℕ × Outcome). p.0 < t + c.recovery_timeout) calls
    → run c calls b ≡ (b, 0)
unfolding run
run_open c [] b h e early = refl
run_open c ((now, out) ∷ calls) b h e early =
    rw (call_open c now out b h e early.0) (rw (run_open c calls b h e early.1) refl)
