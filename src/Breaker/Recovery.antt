-- ===== src/Breaker/Recovery.antt =====
-- Recovery after the timeout, and the half-open state that is never left.
use comfyui_engine.Prelude.{
  ℕ, suc, ◌+◌, ◌<◌, ◌≤◌, ◌≡◌, ◌≢◌, refl, Bool, true, false, some, List, [], ◌∷◌, ap, arith, length,
  if◌then◌else◌,
}
use comfyui_engine.Breaker.{
  Config, Breaker, closed, open_circuit, half_open, call, run, Outcome, returns, raises, cancelled,
}

-- Calls at given times whose coroutines return.
abbrev pub passing : List ℕ → List (ℕ × Outcome)
passing [] = []
passing (now ∷ l) = (now, returns) ∷ passing l

probe :
    (c : Config) (now : ℕ) (b : Breaker)
    → b.state ≡ half_open
    → b.half_open_calls < c.half_open_max_calls
    → b.successes + 1 < c.success_threshold
    → ((call c now returns b).1 ≡ true)
      × ((call c now returns b).0.state ≡ half_open)
      × ((call c now returns b).0.half_open_calls ≡ b.half_open_calls + 1)
      × ((call c now returns b).0.successes ≡ b.successes + 1)
unfolding call
probe c now b h q s = ground arith

last_probe :
    (c : Config) (now : ℕ) (b : Breaker)
    → b.state ≡ half_open
    → b.half_open_calls < c.half_open_max_calls
    → b.successes + 1 ≡ c.success_threshold
    → ((call c now returns b).1 ≡ true)
      × ((call c now returns b).0.state ≡ closed)
      × ((call c now returns b).0.failures ≡ 0)
unfolding call
last_probe c now b h q s = ground arith

probes :
    (c : Config) (now : ℕ) (nows : List ℕ) (b : Breaker)
    → b.state ≡ half_open
    → b.half_open_calls + suc (length nows) ≤ c.half_open_max_calls
    → b.successes + suc (length nows) ≡ c.success_threshold
    → ((run c (passing (now ∷ nows)) b).0.state ≡ closed)
      × ((run c (passing (now ∷ nows)) b).0.failures ≡ 0)
      × ((run c (passing (now ∷ nows)) b).1 ≡ suc (length nows))
unfolding run
probes c now [] b h q s =
    let (r, st, f) = last_probe c now b h (omega arith) (omega arith) in (st, f, rw r refl)
probes c now (next ∷ nows) b h q s =
    let (r, st, k, n) = probe c now b h (omega arith) (omega arith) in
    let (st', f', m) = probes c next nows (call c now returns b).0 st (omega arith) (omega arith) in
    (st', f', rw r (omega arith))

-- The first call after the timeout is a probe of a half-open breaker with fresh counters.
reopening :
    (c : Config) (now : ℕ) (b : Breaker) {t : ℕ}
    → b.state ≡ open_circuit
    → b.last_failure_time ≡ some t
    → t + c.recovery_timeout ≤ now
    → (b' : Breaker) × (b'.state ≡ half_open)
      × (b'.half_open_calls ≡ 0)
      × (b'.successes ≡ 0)
      × ((out : Outcome) → call c now out b ≡ call c now out b')
unfolding call
reopening c now b h e late = (
  record b {
    state = half_open;
    half_open_calls = 0;
    successes = 0;
    changes = (open_circuit, half_open) ∷ b.changes;
  },
  refl,
  refl,
  refl,
  λ out. ground arith,
)

run_same :
    (c : Config) (now : ℕ) (out : Outcome) (calls : List (ℕ × Outcome)) (b d : Breaker)
    → call c now out b ≡ call c now out d
    → run c ((now, out) ∷ calls) b ≡ run c ((now, out) ∷ calls) d
unfolding run
run_same c now out calls b d =
    ap
      (λ r. let (b', ran) = r in let (b'', n) = run c calls b' in (b'', (if ran then 1 else 0) + n))

-- If the quota of probes is at least the success threshold, an open breaker whose timeout has
-- passed at the first of as many calls as the threshold says, all of which return, runs all of
-- them and ends closed with no failure counted.
pub run_recovers :
    (c : Config) (now : ℕ) (nows : List ℕ) (b : Breaker) {t : ℕ}
    → b.state ≡ open_circuit
    → b.last_failure_time ≡ some t
    → t + c.recovery_timeout ≤ now
    → c.success_threshold ≤ c.half_open_max_calls
    → suc (length nows) ≡ c.success_threshold
    → ((run c (passing (now ∷ nows)) b).0.state ≡ closed)
      × ((run c (passing (now ∷ nows)) b).0.failures ≡ 0)
      × ((run c (passing (now ∷ nows)) b).1 ≡ suc (length nows))
run_recovers c now nows b h e late room n =
    let (b', st, q, s, same) = reopening c now b h e late in
    rw (run_same c now returns (passing nows) b b' (same returns))
      (probes c now nows b' st (omega arith) (omega arith))

-- What a sequential breaker with too small a quota keeps: it is not closed, and the probes that
-- succeeded are among those that were counted.
record IsStuck (c : Config) (b : Breaker) : Type 0 where
  not_closed : b.state ≢ closed
  counted : b.state ≡ half_open → b.successes ≤ b.half_open_calls
  quota : b.half_open_calls ≤ c.half_open_max_calls

call-IsStuck :
    (c : Config) (now : ℕ) (out : Outcome) (b : Breaker)
    → c.half_open_max_calls < c.success_threshold
    → IsStuck c b
    → IsStuck c (call c now out b).0
unfolding call
call-IsStuck c now returns b small h = ground arith
call-IsStuck c now (raises at) b small h = ground arith
call-IsStuck c now cancelled b small h = ground arith

run-IsStuck :
    (c : Config) (calls : List (ℕ × Outcome)) (b : Breaker)
    → c.half_open_max_calls < c.success_threshold
    → IsStuck c b
    → IsStuck c (run c calls b).0
unfolding run
run-IsStuck c [] b small h = h
run-IsStuck c ((now, out) ∷ calls) b small h =
    run-IsStuck c calls (call c now out b).0 small (call-IsStuck c now out b small h)

-- If the quota of probes is below the success threshold, an open breaker (its probe counter within
-- the quota) is never closed again by calls made one after the other, whatever their times and
-- outcomes.
pub never_closes :
    (c : Config) (calls : List (ℕ × Outcome)) (b : Breaker)
    → c.half_open_max_calls < c.success_threshold
    → b.state ≡ open_circuit
    → b.half_open_calls ≤ c.half_open_max_calls
    → (run c calls b).0.state ≢ closed
never_closes c calls b small h q =
    (run-IsStuck c calls b small (record {
      not_closed = λ e. ground arith;
      counted = λ e. ground arith;
      quota = q;
    })).not_closed

call_refused :
    (c : Config) (now : ℕ) (out : Outcome) (b : Breaker)
    → b.state ≡ half_open
    → c.half_open_max_calls ≤ b.half_open_calls
    → call c now out b ≡ (b, false)
unfolding call
call_refused c now out b h q = ground arith

run_refused :
    (c : Config) (calls : List (ℕ × Outcome)) (b : Breaker)
    → b.state ≡ half_open
    → c.half_open_max_calls ≤ b.half_open_calls
    → run c calls b ≡ (b, 0)
unfolding run
run_refused c [] b h q = refl
run_refused c ((now, out) ∷ calls) b h q =
    rw (call_refused c now out b h q) (rw (run_refused c calls b h q) refl)

cancelled_probe :
    (c : Config) (now : ℕ) (b : Breaker)
    → b.state ≡ half_open
    → b.half_open_calls < c.half_open_max_calls
    → ((call c now cancelled b).1 ≡ true)
      × ((call c now cancelled b).0.state ≡ half_open)
      × ((call c now cancelled b).0.half_open_calls ≡ b.half_open_calls + 1)
      × ((call c now cancelled b).0.successes ≡ b.successes)
unfolding call
cancelled_probe c now b h q = ground arith

-- Calls at given times whose coroutines return or are cancelled.
abbrev pub settling : List (ℕ × Bool) → List (ℕ × Outcome) → List (ℕ × Outcome)
settling [] calls = calls
settling ((now, true) ∷ l) calls = (now, returns) ∷ settling l calls
settling ((now, false) ∷ l) calls = (now, cancelled) ∷ settling l calls

-- How many of them return.
abbrev pub returned : List (ℕ × Bool) → ℕ
returned [] = 0
returned ((now, true) ∷ l) = returned l + 1
returned ((now, false) ∷ l) = returned l

used_up :
    (c : Config) (l : List (ℕ × Bool)) (calls : List (ℕ × Outcome)) (b : Breaker)
    → b.state ≡ half_open
    → b.half_open_calls + length l ≡ c.half_open_max_calls
    → b.successes + returned l < c.success_threshold
    → ((run c (settling l calls) b).0.state ≡ half_open)
      × ((run c (settling l calls) b).1 ≡ length l)
unfolding run
used_up c [] calls b h q s = rw (run_refused c calls b h (omega (arith, q))) (h, refl)
used_up c ((now, true) ∷ l) calls b h q s =
    let (r, st, k, n) = probe c now b h (omega (arith, q)) (omega (arith, s)) in
    let (st', m) = used_up c l calls (call c now returns b).0 st (omega arith) (omega arith) in
    (st', rw r (omega arith))
used_up c ((now, false) ∷ l) calls b h q s =
    let (r, st, k, n) = cancelled_probe c now b h (omega (arith, q)) in
    let (st', m) = used_up c l calls (call c now cancelled b).0 st (omega arith) (omega arith) in
    (st', rw r (omega arith))

-- An open breaker whose timeout has passed is called one call after the other: first as often as the
-- quota of probes says, where each coroutine returns or is cancelled and fewer return than the
-- success threshold, and then by any calls, at any times. The first ones run their coroutines, none
-- of the later ones does, and the breaker is half-open at the end.
pub run_exhausted :
    (c : Config) (now : ℕ) (passes : Bool) (l : List (ℕ × Bool)) (calls : List (ℕ × Outcome))
    (b : Breaker) {t : ℕ}
    → b.state ≡ open_circuit
    → b.last_failure_time ≡ some t
    → t + c.recovery_timeout ≤ now
    → suc (length l) ≡ c.half_open_max_calls
    → returned ((now, passes) ∷ l) < c.success_threshold
    → ((run c (settling ((now, passes) ∷ l) calls) b).0.state ≡ half_open)
      × ((run c (settling ((now, passes) ∷ l) calls) b).1 ≡ suc (length l))
run_exhausted c now true l calls b h e late quota few =
    let (b', st, q, s, same) = reopening c now b h e late in
    rw (run_same c now returns (settling l calls) b b' (same returns))
      (used_up c ((now, true) ∷ l) calls b' st (omega arith) (omega arith))
run_exhausted c now false l calls b h e late quota few =
    let (b', st, q, s, same) = reopening c now b h e late in
    rw (run_same c now cancelled (settling l calls) b b' (same cancelled))
      (used_up c ((now, false) ∷ l) calls b' st (omega arith) (omega arith))
