-- ===== src/Breaker/Invariant.antt =====
-- The counters of the breaker stay in their ranges, whatever the interleaving of the calls.
use comfyui_engine.Prelude.{ℕ, ◌≤◌, ◌<◌, ◌≡◌, ◌≢◌, none, arith}
use comfyui_engine.Breaker.{
  Config, Breaker, closed, open_circuit, half_open, init, admit, settle, returns, raises, cancelled,
  Outcome,
}
use comfyui_engine.Breaker.Steps.{World, Step, begin, refuse, finish, Reach, here, next, start}

-- The thresholds of a usable configuration.
pub record IsSane (c : Config) : Type 0 where
  pub failure : 0 < c.failure_threshold
  pub success : 0 < c.success_threshold

pub record IsValid (c : Config) (b : Breaker) : Type 0 where
  pub quota : b.half_open_calls ≤ c.half_open_max_calls
  pub closed_below : b.state ≡ closed → b.failures < c.failure_threshold
  pub probing_below : b.state ≡ half_open → b.successes < c.success_threshold
  pub opened_by : b.state ≡ open_circuit → b.last_failure_time ≢ none

pub init-IsValid : {c : Config} → IsSane c → IsValid c init
init-IsValid s = ground arith

pub admit-IsValid :
    {c : Config} {b : Breaker} (now : ℕ) → IsSane c → IsValid c b → IsValid c (admit c now b).0
unfolding admit
admit-IsValid now s v = ground arith

pub settle-IsValid :
    {c : Config} {b : Breaker} (out : Outcome) → IsSane c → IsValid c b → IsValid c (settle c out b)
unfolding settle
settle-IsValid returns s v = ground arith
settle-IsValid (raises now) s v = ground arith
settle-IsValid cancelled s v = v

Step-IsValid :
    {c : Config} {u v : World} → IsSane c → Step c u v → IsValid c u.breaker → IsValid c v.breaker
Step-IsValid s (begin w now a) h = admit-IsValid now s h
Step-IsValid s (refuse w now) h = admit-IsValid now s h
Step-IsValid s (finish w n out e) h = settle-IsValid out s h

-- For positive thresholds, in every state that any interleaving of calls, refusals, returns,
-- failures and cancellations reaches from the start: the probes counted never exceed the quota, a
-- closed breaker has fewer failures than its threshold, a half-open one has fewer successes than
-- its threshold, and an open one knows the time of a failure.
pub Reach-IsValid : {c : Config} {w : World} → IsSane c → Reach c start w → IsValid c w.breaker
Reach-IsValid s here = init-IsValid s
Reach-IsValid s (next r st) = Step-IsValid s st (Reach-IsValid s r)
