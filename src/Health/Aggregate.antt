-- ===== src/Health/Aggregate.antt =====
-- The aggregate status against the two flags, and against how the checks ran.
use comfyui_engine.Prelude.{
  ◌≡◌, refl, Bool, true, not, ◌&&◌, List, [], ◌∷◌, String, arith, all, any, str_eq, if◌then◌else◌,
  Dict, lookup-insert,
}
use comfyui_engine.Health.{
  healthy, degraded, unhealthy, is_status, CheckResult, is_healthy, is_ready, overall_status,
  finished, timed_out, raised, Check, register, run_check, run_all, run_one,
}

all-not : (cs : List CheckResult) → is_ready cs ≡ not (any (λ c. is_status c.status unhealthy) cs)
unfolding is_ready
all-not [] = refl
all-not (c ∷ cs) = ground (arith, all-not cs)

all-healthy :
    (cs : List CheckResult)
    → is_healthy cs ≡ (
        not (any (λ c. is_status c.status unhealthy) cs)
        && not (any (λ c. is_status c.status degraded) cs))
unfolding is_healthy
all-healthy [] = refl
all-healthy (c ∷ cs) = ground (arith, all-healthy cs)

-- The aggregate is healthy exactly when its overall status is HEALTHY, and ready exactly when its
-- overall status is not UNHEALTHY.
pub overall_status-agrees :
    (cs : List CheckResult)
    → (is_healthy cs ≡ is_status (overall_status cs) healthy)
      × (is_ready cs ≡ not (is_status (overall_status cs) unhealthy))
unfolding overall_status
overall_status-agrees cs = ground (arith, all-not cs, all-healthy cs)

-- A run counts against readiness if it timed out, raised, or gave an UNHEALTHY result.
abbrev pub run_fails : Check → Bool
run_fails (finished r, t) = is_status r.status unhealthy
run_fails (timed_out, t) = true
run_fails (raised m, t) = true

run_check-unhealthy :
    (name : String) (check : Check)
    → is_status (run_check name check).status unhealthy ≡ run_fails check
unfolding run_check
run_check-unhealthy name (finished r, t) = refl
run_check-unhealthy name (timed_out, t) = refl
run_check-unhealthy name (raised m, t) = refl

-- Running all checks reports ready exactly when none of the registered checks times out, raises or
-- answers UNHEALTHY: one that fails is never hidden by the others, and hides none of them.
is_ready-run_all :
    (checks : Dict Check)
    → is_ready (run_all checks) ≡ all (λ (p : String × Check). not (run_fails p.1)) checks
unfolding is_ready run_all
is_ready-run_all [] = refl
is_ready-run_all ((name, check) ∷ checks) =
    ground (arith, is_ready-run_all checks, run_check-unhealthy name check)

-- After a check is registered, running it by name runs that check, and running any other name gives
-- what it gave before.
pub run_one-register :
    (name other : String) (check : Check) (checks : Dict Check)
    → run_one other (register name check checks)
      ≡ (if str_eq name other then run_check other check else run_one other checks)
unfolding run_one register
run_one-register name other check checks = ground (arith, lookup-insert name other check checks)
