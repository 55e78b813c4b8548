-- ===== src/Breaker.antt =====
-- engine/circuit_breaker.py: the circuit breaker. A time is a reading of `time.monotonic()` in whole
-- ticks, an argument of each call. The state-change callback appears as the list of the pairs that
-- it is given, the newest first; what it raises is swallowed by the code and has no effect. `trips`
-- is the metrics counter "circuit_breaker_trips". The lock makes each of `admit`, `on_success` and
-- `on_failure` one step; what other tasks do while the protected coroutine runs is in Breaker/Steps.
pub mod Steps
pub mod Invariant
pub mod History
pub mod Trip
pub mod Recovery
use comfyui_engine.Prelude.{
  ℕ, ◌+◌, ◌-◌, Bool, true, false, ◌&&◌, ◌||◌, Option, none, some, List, [], ◌∷◌, ltb, leb,
  if◌then◌else◌,
}

pub data State : Type 0 where
  closed open_circuit half_open : State

pub record Config : Type 0 where
  pub failure_threshold : ℕ
  pub recovery_timeout : ℕ
  pub half_open_max_calls : ℕ
  pub success_threshold : ℕ

abbrev pub default_config : Config
default_config = record {
  failure_threshold = 5;
  recovery_timeout = 30;
  half_open_max_calls = 3;
  success_threshold = 2;
}

pub record Breaker : Type 0 where
  pub state : State
  pub failures : ℕ
  pub successes : ℕ
  pub half_open_calls : ℕ
  pub last_failure_time : Option ℕ
  pub trips : ℕ
  pub changes : List (State × State)

abbrev pub init : Breaker
init = record {
  state = closed;
  failures = 0;
  successes = 0;
  half_open_calls = 0;
  last_failure_time = none;
  trips = 0;
  changes = [];
}

abbrev pub is_open : State → Bool
is_open open_circuit = true
is_open _ = false

abbrev pub is_half_open : State → Bool
is_half_open half_open = true
is_half_open _ = false

abbrev pub is_closed : State → Bool
is_closed closed = true
is_closed _ = false

pub transition : State → Breaker → Breaker
transition new b = record b { state = new; changes = (b.state, new) ∷ b.changes }

pub should_attempt_reset : Config → ℕ → Breaker → Bool
should_attempt_reset c now b = elim b.last_failure_time [
  | none ↦ true
  | some t ↦ leb (t + c.recovery_timeout) now
]

-- The outcome of the first locked block of `call`.
pub data Admission : Type 0 where
  admitted rejected_open rejected_quota : Admission

take_slot : Config → Breaker → Breaker × Admission
take_slot c b =
    if is_half_open b.state
    then (if leb c.half_open_max_calls b.half_open_calls
        then (b, rejected_quota)
        else (record b { half_open_calls = b.half_open_calls + 1 }, admitted))
    else (b, admitted)

start_probing : Breaker → Breaker
unfolding transition
start_probing b = record (transition half_open b) { half_open_calls = 0; successes = 0 }

-- `call` up to the await of the coroutine.
unfoldable pub admit : Config → ℕ → Breaker → Breaker × Admission
unfolding take_slot start_probing should_attempt_reset
admit c now b =
    if is_open b.state
    then (if should_attempt_reset c now b
        then take_slot c (start_probing b)
        else (b, rejected_open))
    else take_slot c b

-- Failures fall by one on a success outside HALF_OPEN; `-` stops at 0, as `max(0, _)` does.
pub on_success : Config → Breaker → Breaker
unfolding transition
on_success c b =
    if is_half_open b.state
    then (let b' = record b { successes = b.successes + 1 } in
        if leb c.success_threshold b'.successes
        then record (transition closed b') { failures = 0 }
        else b')
    else record b { failures = b.failures - 1 }

trip : Breaker → Breaker
unfolding transition
trip b = record (transition open_circuit b) { trips = b.trips + 1 }

pub on_failure : Config → ℕ → Breaker → Breaker
unfolding trip
on_failure c now b =
    let b' = record b { failures = b.failures + 1; last_failure_time = some now } in
    if is_half_open b.state
    then trip b'
    else if is_closed b.state && leb c.failure_threshold b'.failures
    then trip b'
    else b'

-- What the protected coroutine does: it returns, it raises an `Exception` at a time, or it is
-- cancelled (`CancelledError` is no `Exception`, so that neither handler runs).
pub data Outcome : Type 0 where
  returns : Outcome
  raises : ℕ → Outcome
  cancelled : Outcome

pub settle : Config → Outcome → Breaker → Breaker
unfolding on_success on_failure
settle c returns b = on_success c b
settle c (raises now) b = on_failure c now b
settle c cancelled b = b

-- `call` with nothing between its two locked blocks; the Boolean tells whether the coroutine ran.
settle_if : Config → Outcome → Breaker × Admission → Breaker × Bool
unfolding settle
settle_if c out (b, admitted) = (settle c out b, true)
settle_if c out (b, _) = (b, false)

unfoldable pub call : Config → ℕ → Outcome → Breaker → Breaker × Bool
unfolding admit settle_if
call c now out b = settle_if c out (admit c now b)

-- A sequence of calls, one after the other, and how many of them ran the coroutine.
unfoldable pub run : Config → List (ℕ × Outcome) → Breaker → Breaker × ℕ
unfolding call
run c [] b = (b, 0)
run c ((now, out) ∷ calls) b =
    let (b', ran) = call c now out b in
    let (b'', n) = run c calls b' in (b'', (if ran then 1 else 0) + n)

-- `get_status`, without the name.
pub record Status : Type 0 where
  pub state : State
  pub failures : ℕ
  pub last_failure_time : Option ℕ

unfoldable pub get_status : Breaker → Status
get_status b = record {
  state = b.state;
  failures = b.failures;
  last_failure_time = b.last_failure_time;
}
