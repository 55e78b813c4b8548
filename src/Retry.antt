-- ===== src/Retry.antt =====
-- engine/retry.py: retries with a choice of back-off strategies and a rule on HTTP statuses. Delays
-- are whole ticks and the exponential base is a whole number. An attempt's outcome is a function of
-- its number (RetryPolicy's `Attempt`: `retryable` for an exception of `retryable_exceptions`);
-- `status_of` is the `status` attribute of an exception, if it has one.
pub mod Delays
pub mod Attempts
use comfyui_engine.Prelude.{
  ℕ, zero, suc, ◌+◌, ◌*◌, ◌^◌, min, Bool, true, false, not, ◌&&◌, ◌||◌, Option, none, some, List,
  [], ◌∷◌, any, ◌==◌, if◌then◌else◌,
}
use comfyui_engine.Random.{Random}
use comfyui_engine.RetryPolicy.{Attempt, returned, retryable, other}

-- The names of the strategies; any other string behaves as `unknown`.
pub data Strategy : Type 0 where
  fixed linear exponential full_jitter decorrelated_jitter unknown : Strategy

pub record Config : Type 0 where
  pub max_retries : ℕ
  pub base_delay : ℕ
  pub max_delay : ℕ
  pub exponential_base : ℕ
  pub strategy : Strategy
  pub retryable_statuses : List ℕ
  pub non_retryable_statuses : List ℕ
  pub status_based_retry : Bool

abbrev pub default_config : Config
default_config = record {
  max_retries = 3;
  base_delay = 1;
  max_delay = 60;
  exponential_base = 2;
  strategy = full_jitter;
  retryable_statuses = 408 ∷ 429 ∷ 500 ∷ 502 ∷ 503 ∷ 504 ∷ [];
  non_retryable_statuses = 400 ∷ 401 ∷ 403 ∷ 404 ∷ 405 ∷ 422 ∷ [];
  status_based_retry = true;
}

-- `_compute_delay`; the n-th attempt makes the n-th draw.
pub compute_delay : Random → Strategy → ℕ → ℕ → ℕ → ℕ → ℕ → ℕ
compute_delay r fixed attempt base exp max_d prev = min max_d base
compute_delay r linear attempt base exp max_d prev = min max_d (base * (attempt + 1))
compute_delay r exponential attempt base exp max_d prev = min max_d (base * exp ^ attempt)
compute_delay r full_jitter attempt base exp max_d prev =
    r.uniform attempt 0 (min max_d (base * exp ^ attempt))
compute_delay r decorrelated_jitter attempt base exp max_d prev =
    min max_d (r.uniform attempt base (min max_d (prev * 3)))
compute_delay r unknown attempt base exp max_d prev = min max_d (base * exp ^ attempt)

abbrev is_empty : List ℕ → Bool
is_empty [] = true
is_empty (x ∷ xs) = false

-- The check that ends the loop by an exception's status.
unfoldable pub refuses : Config → Option ℕ → Bool
refuses c none = false
refuses c (some status) =
    c.status_based_retry
    && (any (λ s. s == status) c.non_retryable_statuses
        || (not (is_empty c.retryable_statuses)
            && not (any (λ s. s == status) c.retryable_statuses)))

-- What `with_retry` ends with: a value, the last exception chained to the first one, or an
-- exception that is not retryable.
pub data Ending (E A : Type 0) : Type 0 where
  value : A → Ending E A
  raises_from : E → Option E → Ending E A
  escaped : E → Ending E A

abbrev pub or_else : {E : Type 0} → Option E → E → E
or_else none e = e
or_else (some first) e = first

pub delay_after : Random → Config → ℕ → ℕ → ℕ
unfolding compute_delay
delay_after r c attempt prev =
    compute_delay r c.strategy attempt c.base_delay c.exponential_base c.max_delay prev

module _ {E A : Type 0} (r : Random) (c : Config) (status_of : E → Option ℕ) where
  -- The loop from an attempt on, with the rounds left, the delay before, the first exception and
  -- the last; with the ending come the delays that were slept, one for each count of
  -- "retries_total".
  pub attempts_from : (run : ℕ → Attempt E A) → ℕ → ℕ → ℕ → Option E → E → Ending E A × List ℕ
  unfolding delay_after refuses
  attempts_from run zero attempt prev first last = (raises_from last first, [])
  attempts_from run (suc rounds) attempt prev first last = elim (run attempt) [
    | returned a ↦ (value a, [])
    | other e ↦ (escaped e, [])
    | retryable e ↦
        let first' = some (or_else first e) in
        let delay = delay_after r c attempt prev in
        let rest = attempts_from run rounds (attempt + 1) delay first' e in
        if attempt == c.max_retries
        then (raises_from e first', [])
        else if refuses c (status_of e)
        then (raises_from e first', [])
        else (rest.0, delay ∷ rest.1)
  ]

  -- `with_retry`. The first round always ends with a `return` or an exception, so that the initial
  -- last exception (`None` in the code) is never raised.
  unfoldable pub with_retry : (run : ℕ → Attempt E A) → E → Ending E A × List ℕ
  unfolding attempts_from
  with_retry run initial = attempts_from run (suc c.max_retries) 0 c.base_delay none initial
