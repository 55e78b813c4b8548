-- ===== src/Security/RateLimit.antt =====
-- engine/security.py: RateLimiter. Times are whole seconds. The lock makes each method one step. A
-- result of none stands for the error that a limit of no requests at all leads to.
use comfyui_engine.Prelude.{
  ℕ, ◌+◌, ◌-◌, Bool, true, false, Option, none, some, List, [], ◌∷◌, ◌++◌, String, length, keep,
  ltb, leb, if◌then◌else◌, Dict, lookup, insert,
}

pub record Limiter : Type 0 where
  pub window_size : ℕ
  pub max_requests : ℕ
  pub requests : Dict (List ℕ)

-- Allowed or not, the requests that remain, and the seconds to the reset.
abbrev pub Verdict : Type 0
Verdict = Bool × ℕ × ℕ

-- The times under a key; a key that is missing is given an empty list.
unfoldable pub requests_of : String → Limiter → List ℕ
unfolding lookup
requests_of key l = elim (lookup key l.requests) [ none ↦ [] | some ts ↦ ts ]

-- `t > now - window_size`
abbrev pub in_window : ℕ → ℕ → ℕ → Bool
in_window w now t = ltb now (t + w)

unfoldable pub set_requests : String → List ℕ → Limiter → Limiter
unfolding insert
set_requests key ts l = record l { requests = insert key ts l.requests }

-- The verdict of a full window; none where it is empty.
unfoldable pub refuse : ℕ → ℕ → List ℕ → Option Verdict
refuse w now [] = none
refuse w now (t ∷ ts) = some (false, 0, t + w - now)

-- `is_allowed`: the limiter after it, and the verdict.
unfoldable pub is_allowed : ℕ → String → Limiter → Limiter × Option Verdict
unfolding requests_of set_requests refuse
is_allowed now key l =
    let recent = keep (in_window l.window_size now) (requests_of key l) in
    if leb l.max_requests (length recent)
    then (set_requests key recent l, refuse l.window_size now recent)
    else (
      set_requests key (recent ++ now ∷ []) l,
      some (true, l.max_requests - length (recent ++ now ∷ []), l.window_size),
    )

unfoldable pub first_reset : ℕ → ℕ → List ℕ → ℕ
first_reset w now [] = 0
first_reset w now (t ∷ ts) = t + w - now

-- `get_status`: the requests that remain, the limit and the seconds to the reset.
unfoldable pub get_status : ℕ → String → Limiter → ℕ × ℕ × ℕ
unfolding lookup first_reset
get_status now key l = elim (lookup key l.requests) [
  | none ↦ (l.max_requests, l.max_requests, 0)
  | some ts ↦
      (let recent = keep (in_window l.window_size now) ts in
        (l.max_requests - length recent, l.max_requests, first_reset l.window_size now recent))
]
