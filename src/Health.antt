-- ===== src/Health.antt =====
-- engine/health.py: the registry of health checks and the aggregate of their results. A check that
-- runs ends in one of three ways (`Run`): it gives a result, it exceeds the timeout, or it raises.
-- Each run has a latency. The checks run concurrently and share nothing, so that their results are
-- a list in the order of registration.
pub mod Aggregate
use comfyui_engine.Prelude.{
  ℕ, Bool, true, false, not, Option, none, some, List, [], ◌∷◌, String, all, any, if◌then◌else◌,
  Dict, lookup, insert,
}

pub data Status : Type 0 where
  healthy degraded unhealthy : Status

abbrev pub is_status : Status → Status → Bool
is_status healthy healthy = true
is_status degraded degraded = true
is_status unhealthy unhealthy = true
is_status _ _ = false

pub record CheckResult : Type 0 where
  pub name : String
  pub status : Status
  pub latency : ℕ
  pub message : String

-- `AggregateHealth.is_healthy`
pub is_healthy : List CheckResult → Bool
is_healthy checks = all (λ c. is_status c.status healthy) checks

-- `AggregateHealth.is_ready`
unfoldable pub is_ready : List CheckResult → Bool
is_ready checks = all (λ c. not (is_status c.status unhealthy)) checks

-- `AggregateHealth.overall_status`
unfoldable pub overall_status : List CheckResult → Status
overall_status checks =
    if any (λ c. is_status c.status unhealthy) checks
    then unhealthy
    else if any (λ c. is_status c.status degraded) checks
    then degraded
    else healthy

pub data Run : Type 0 where
  finished : CheckResult → Run
  timed_out : Run
  raised : String → Run

-- A check function: how its run ends, and how long it takes.
abbrev pub Check : Type 0
Check = Run × ℕ

unfoldable pub register : String → Check → Dict Check → Dict Check
register name check checks = insert name check checks

-- `_run_one`; the timeout's message is abbreviated.
pub run_check : String → Check → CheckResult
run_check name (finished result, latency) = record result { latency = latency }
run_check name (timed_out, latency) = record {
  name = name;
  status = unhealthy;
  latency = latency;
  message = "Timed out";
}
run_check name (raised message, latency) = record {
  name = name;
  status = unhealthy;
  latency = latency;
  message = message;
}

unfoldable pub run_all : Dict Check → List CheckResult
unfolding run_check
run_all [] = []
run_all ((name, check) ∷ checks) = run_check name check ∷ run_all checks

-- `run_one`, on a name that need not be registered.
unfoldable pub run_one : String → Dict Check → CheckResult
unfolding run_check
run_one name checks = elim (lookup name checks) [
  | none ↦ record { name = name; status = unhealthy; latency = 0; message = "Unknown check" }
  | some check ↦ run_check name check
]
