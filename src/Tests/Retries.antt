-- ===== src/Tests/Retries.antt =====
-- Tests and instances for engine/retry_policy.py and engine/retry.py.
use comfyui_engine.Prelude.{
  ℕ, ◌≡◌, ◌≤◌, ◌<◌, refl, false, Option, none, some, [], ◌∷◌, arith, length, All, String, ◌==◌,
  if◌then◌else◌,
}
use comfyui_engine.Random.{draws_high}
use comfyui_engine.RetryPolicy.{Policy, Attempt, returned, retryable}
use comfyui_engine.RetryPolicy
use comfyui_engine.RetryPolicy.Delays.{compute_delay_mono, AreTimely, execute-AreTimely}
use comfyui_engine.RetryPolicy.Attempts.{execute_returns}
use comfyui_engine.Retry
use comfyui_engine.Retry.{Config, default_config, decorrelated_jitter, exponential}
use comfyui_engine.Retry.Delays.{InRange, with_retry-InRange}

abbrev steady : Policy
steady = record {
  max_attempts = 3;
  base_delay = 10;
  max_delay = 60;
  backoff_factor = 2;
  jitter = false;
}

-- A function that fails twice, with the number of the attempt as its exception, and then returns.
abbrev flaky : ℕ → Attempt ℕ String
flaky n = if n == 2 then returned "done" else retryable n

abbrev broken : ℕ → Attempt ℕ String
broken n = retryable n

-- The clock stands at 100 ticks for each attempt made.
abbrev clock : ℕ → ℕ
clock n = 100

no_policy :
    (RetryPolicy.make (record steady { max_attempts = 0 }) ≡ none)
    × (RetryPolicy.make steady ≡ some steady)
unfolding RetryPolicy.make
no_policy = (refl, refl)

deadline_aborts :
    RetryPolicy.execute draws_high steady clock (some 115) broken 99
    ≡ (RetryPolicy.exhausted 2 1, 10 ∷ [])
unfolding RetryPolicy.execute
deadline_aborts = refl

flaky_fails : (i : ℕ) → i < 2 → flaky i ≡ retryable i
flaky_fails i h = ground arith

execute_returns_example :
    ((RetryPolicy.execute draws_high steady clock none flaky 99).0 ≡ RetryPolicy.value "done")
    × (length (RetryPolicy.execute draws_high steady clock none flaky 99).1 ≡ 2)
unfolding RetryPolicy.execute
execute_returns_example =
    execute_returns draws_high steady clock none flaky (λ n. n) 2 99 (omega arith) flaky_fails
      (λ i h. refl) refl

execute-AreTimely_example :
    AreTimely steady clock
      (some 115)
      0
      (RetryPolicy.execute draws_high steady clock (some 115) broken 99).1
execute-AreTimely_example = execute-AreTimely draws_high steady clock (some 115) broken 99

compute_delay_mono_example :
    RetryPolicy.compute_delay draws_high steady 2 ≤ RetryPolicy.compute_delay draws_high steady 3
compute_delay_mono_example = compute_delay_mono draws_high steady 2 refl (omega arith)

abbrev jittered : Config
jittered = record default_config { strategy = decorrelated_jitter }

-- Every exception has the status that its number says.
abbrev status_of : ℕ → Option ℕ
status_of n = some (if n == 1 then 404 else 503)

growing :
    Retry.with_retry draws_high jittered status_of flaky 99 ≡ (Retry.raises_from 1 (some 0), 3 ∷ [])
unfolding Retry.with_retry
growing = refl

with_retry-InRange_example :
    All (InRange jittered) (Retry.with_retry draws_high jittered status_of broken 99).1
with_retry-InRange_example =
    with_retry-InRange draws_high jittered status_of broken (omega arith) 99

abbrev unavailable : ℕ → Option ℕ
unavailable n = some 503
