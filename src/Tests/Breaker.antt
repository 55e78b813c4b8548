-- ===== src/Tests/Breaker.antt =====
-- Tests and instances for engine/circuit_breaker.py and engine/deadline.py.
use comfyui_engine.Prelude.{◌≡◌, ◌≢◌, refl, true, false, none, some, [], ◌∷◌, arith}
use comfyui_engine.Breaker.{
  Config, Breaker, default_config, closed, open_circuit, half_open, init, call, run, admit, returns,
  raises, rejected_open, get_status,
}
use comfyui_engine.Breaker.Steps.{start, begin, finish, Reach, here, next}
use comfyui_engine.Breaker.Invariant.{IsSane, IsValid, Reach-IsValid}
use comfyui_engine.Breaker.Trip.{failing, run_trips}
use comfyui_engine.Breaker.Recovery.{passing, run_recovers, never_closes, settling, run_exhausted}
use comfyui_engine.Deadline.{Context, make, get_deadline}
use comfyui_engine.Deadline.Nesting.{enter_all}

abbrev down : Breaker
down = record {
  state = open_circuit;
  failures = 5;
  successes = 0;
  half_open_calls = 0;
  last_failure_time = some 100;
  trips = 1;
  changes = (closed, open_circuit) ∷ [];
}

-- A configuration whose quota of probes is below its success threshold.
abbrev narrow_quota : Config
narrow_quota = record default_config { half_open_max_calls = 1 }

default_config-IsSane : IsSane default_config
default_config-IsSane = omega arith

five_failures :
    get_status
      (run default_config (failing ((1, 2) ∷ (3, 4) ∷ (5, 6) ∷ (7, 8) ∷ (9, 10) ∷ [])) init).0
    ≡ record { state = open_circuit; failures = 5; last_failure_time = some 10 }
unfolding run get_status
five_failures = refl

refused_when_open : admit default_config 129 down ≡ (down, rejected_open)
unfolding admit
refused_when_open = refl

-- An admitted call that fails while another is in flight.
two_in_flight :
    Reach default_config start
      (record { breaker = record init { failures = 1; last_failure_time = some 7 }; in_flight = 1 })
unfolding call
two_in_flight =
    next
      (next (next here (begin start 1 refl))
        (begin (record { breaker = init; in_flight = 1 }) 2 refl))
      (finish (record { breaker = init; in_flight = 2 }) 1 (raises 7) refl)

Reach-IsValid_example :
    IsValid default_config (record init { failures = 1; last_failure_time = some 7 })
Reach-IsValid_example = Reach-IsValid default_config-IsSane two_in_flight

run_trips_example :
    ((run default_config (failing ((1, 2) ∷ (3, 4) ∷ (5, 6) ∷ (7, 8) ∷ [])) init).0.state ≡ closed)
    × ((run default_config (failing ((1, 2) ∷ (3, 4) ∷ (5, 6) ∷ (7, 8) ∷ [])) init).0.trips ≡ 0)
    × ((call default_config 9
          (raises 10)
          (run default_config (failing ((1, 2) ∷ (3, 4) ∷ (5, 6) ∷ (7, 8) ∷ [])) init).0).0.state
        ≡ open_circuit)
    × ((call default_config 9
          (raises 10)
          (run default_config
            (failing ((1, 2) ∷ (3, 4) ∷ (5, 6) ∷ (7, 8) ∷ []))
            init).0).0.last_failure_time
        ≡ some 10)
    × ((call default_config 9
          (raises 10)
          (run default_config (failing ((1, 2) ∷ (3, 4) ∷ (5, 6) ∷ (7, 8) ∷ [])) init).0).0.trips
        ≡ 1)
run_trips_example =
    run_trips default_config ((1, 2) ∷ (3, 4) ∷ (5, 6) ∷ (7, 8) ∷ []) 9 10 init refl (omega arith)

run_recovers_example :
    ((run default_config (passing (130 ∷ 131 ∷ [])) down).0.state ≡ closed)
    × ((run default_config (passing (130 ∷ 131 ∷ [])) down).0.failures ≡ 0)
    × ((run default_config (passing (130 ∷ 131 ∷ [])) down).1 ≡ 2)
run_recovers_example =
    run_recovers default_config 130 (131 ∷ []) down refl refl (omega arith) (omega arith) refl

never_closes_example :
    (run narrow_quota ((130, returns) ∷ (200, returns) ∷ (300, returns) ∷ []) down).0.state ≢ closed
never_closes_example =
    never_closes narrow_quota ((130, returns) ∷ (200, returns) ∷ (300, returns) ∷ []) down
      (omega arith) refl (omega arith)

-- Two of three probes are cancelled, and the breaker never runs a coroutine again.
run_exhausted_example :
    ((run default_config
        (settling
          ((200, false) ∷ (201, true) ∷ (202, false) ∷ [])
          ((1000, returns) ∷ (9000, returns) ∷ []))
        down).0.state
      ≡ half_open)
    × ((run default_config
          (settling
            ((200, false) ∷ (201, true) ∷ (202, false) ∷ [])
            ((1000, returns) ∷ (9000, returns) ∷ []))
          down).1
        ≡ 3)
run_exhausted_example =
    run_exhausted default_config 200 false ((201, true) ∷ (202, false) ∷ [])
      ((1000, returns) ∷ (9000, returns) ∷ []) down refl refl (omega arith) refl (omega arith)

abbrev soon : Context
soon = record { timeout = 10; expiry = 0; token = none }

abbrev late : Context
late = record { timeout = 500; expiry = 0; token = none }

made : (make 10 ≡ some soon) × (make 0 ≡ none)
unfolding make
made = (refl, refl)

-- The inner context does not loosen the outer deadline.
no_widening : get_deadline (enter_all ((100, soon) ∷ (101, late) ∷ []) [] none).1 ≡ some 110
unfolding get_deadline enter_all
no_widening = refl
