-- ===== src/Retry/Attempts.antt =====
-- How often the coroutine is run, and what `with_retry` ends with.
use comfyui_engine.Prelude.{
  ℕ, zero, suc, ◌+◌, ◌-◌, ◌≤◌, ◌<◌, ◌≡◌, refl, ◌∙◌, ◌⊎◌, inl, inr, true, false, Option, none, some,
  [], arith, length, ◌==◌, Bool-cases,
}
use comfyui_engine.Random.{Random}
use comfyui_engine.RetryPolicy.{Attempt, returned, retryable}
use comfyui_engine.Retry.{
  Config, value, raises_from, delay_after, refuses, or_else, attempts_from, with_retry,
}

module _ {E A : Type 0} (r : Random) (c : Config) (status_of : E → Option ℕ) (run : ℕ → Attempt E A)
    (err : ℕ → E) where
  -- The attempts below a number all raise retryable exceptions, the given ones.
  abbrev pub AllFail : ℕ → Type 0
  AllFail n = (i : ℕ) → i < n → run i ≡ retryable (err i)

  -- The statuses of those exceptions allow another attempt.
  abbrev pub AllRetry : ℕ → Type 0
  AllRetry n = (i : ℕ) → i < n → refuses c (status_of (err i)) ≡ false

  go_on :
      (rounds i prev : ℕ) (first : Option E) (last : E)
      → i < c.max_retries
      → run i ≡ retryable (err i)
      → refuses c (status_of (err i)) ≡ false
      → ((attempts_from r c status_of run (suc rounds) i prev first last).0
          ≡ (attempts_from r c status_of run rounds
              (i + 1)
              (delay_after r c i prev)
              (some (or_else first (err i)))
              (err i)).0)
        × (length (attempts_from r c status_of run (suc rounds) i prev first last).1
            ≡ suc (
                length
                  (attempts_from r c status_of run rounds
                    (i + 1)
                    (delay_after r c i prev)
                    (some (or_else first (err i)))
                    (err i)).1))
  unfolding attempts_from
  go_on rounds i prev first last more fails retry = elim (Bool-cases (i == c.max_retries)) [
    | inl end ↦ absurd (ground arith)
    | inr more' ↦ rw (fails, attempts_from) (rw more' (rw retry (refl, refl)))
  ]

  -- Failing attempts with another to come, once a first exception is known.
  skip :
      (k rounds total i prev : ℕ) (first last : E)
      → total ≡ k + rounds
      → i + k ≤ c.max_retries
      → AllFail (i + k)
      → AllRetry (i + k)
      → (prev' : ℕ) × (last' : E) × ((attempts_from r c status_of run total i prev
            (some first)
            last).0
          ≡ (attempts_from r c status_of run rounds (i + k) prev' (some first) last').0)
        × (length (attempts_from r c status_of run total i prev (some first) last).1
            ≡ k
              + length (attempts_from r c status_of run rounds (i + k) prev' (some first) last').1)
  skip zero rounds total i prev first last e room fails retry =
      let e' : total ≡ rounds = omega arith in
      let f : i + 0 ≡ i = omega arith in (prev, last, rw (e', f) refl, rw (e', f) (omega arith))
  skip (suc k) rounds zero i prev first last e room fails retry = absurd (omega arith)
  skip (suc k) rounds (suc total) i prev first last e room fails retry =
      let (st, len) =
        go_on total i prev (some first) last (omega arith) (fails i (omega arith))
          (retry i (omega arith)) in
      let f : i + suc k ≡ i + 1 + k = omega arith in
      let (prev', last', st', len') =
        skip k rounds total (i + 1) (delay_after r c i prev) first (err i) (omega arith)
          (omega arith) (λ j h. fails j (omega arith)) (λ j h. retry j (omega arith)) in
      (prev', last', rw f (st ∙ st'), rw f (omega arith))

  returns_at :
      (rounds i prev : ℕ) (first : Option E) (last : E) {a : A}
      → run i ≡ returned a
      → attempts_from r c status_of run (suc rounds) i prev first last ≡ (value a, [])
  unfolding attempts_from
  returns_at rounds i prev first last h = rw (h, attempts_from) refl

  gives_up :
      (rounds i prev : ℕ) (first : Option E) (last : E)
      → run i ≡ retryable (err i)
      → (i ≡ c.max_retries) ⊎ (refuses c (status_of (err i)) ≡ true)
      → attempts_from r c status_of run (suc rounds) i prev first last
        ≡ (raises_from (err i) (some (or_else first (err i))), [])
  unfolding attempts_from
  gives_up rounds i prev first last h why = elim (Bool-cases (i == c.max_retries)) [
    | inl end ↦ rw (h, attempts_from) (rw end refl)
    | inr more ↦ elim why [
      | inl last_one ↦ absurd (ground arith)
      | inr no_retry ↦ rw (h, attempts_from) (rw more (rw no_retry refl))
    ]
  ]

  -- If the first attempts all raise retryable exceptions whose statuses allow a retry, and the next
  -- one, at most the last retry, returns, then `with_retry` returns its value after one sleep for
  -- each failure.
  with_retry_returns :
      (j : ℕ) {a : A} (initial : E)
      → j ≤ c.max_retries
      → AllFail j
      → AllRetry j
      → run j ≡ returned a
      → ((with_retry r c status_of run initial).0 ≡ value a)
        × (length (with_retry r c status_of run initial).1 ≡ j)
  unfolding with_retry
  with_retry_returns zero initial room fails retry h =
      let done = returns_at c.max_retries 0 c.base_delay none initial h in
      (rw done refl, rw done refl)
  with_retry_returns (suc j) initial room fails retry h =
      let (st, len) =
        go_on c.max_retries 0 c.base_delay none initial (omega arith) (fails 0 (omega arith))
          (retry 0 (omega arith)) in
      let (prev', last', st', len') =
        skip j (suc (c.max_retries - suc j)) c.max_retries 1 (delay_after r c 0 c.base_delay)
          (err 0) (err 0) (omega arith) (omega arith) (λ i lt. fails i (omega arith))
          (λ i lt. retry i (omega arith)) in
      let f : 1 + j ≡ suc j = omega arith in
      let done = returns_at (c.max_retries - suc j) (suc j) prev' (some (err 0)) last' h in
      (st ∙ st' ∙ rw (f, done) refl, len ∙ rw len' (rw (f, done) (omega arith)))

  -- If the attempts up to one all raise retryable exceptions, the statuses of those before it allow
  -- a retry, and it is the last retry or its own status forbids another, then `with_retry` raises
  -- its exception chained to that of the first attempt, after one sleep for each attempt before it.
  pub with_retry_raises :
      (j : ℕ) (initial : E)
      → j ≤ c.max_retries
      → AllFail (j + 1)
      → AllRetry j
      → (j ≡ c.max_retries) ⊎ (refuses c (status_of (err j)) ≡ true)
      → ((with_retry r c status_of run initial).0 ≡ raises_from (err j) (some (err 0)))
        × (length (with_retry r c status_of run initial).1 ≡ j)
  unfolding with_retry
  with_retry_raises zero initial room fails retry why =
      let done = gives_up c.max_retries 0 c.base_delay none initial (fails 0 (omega arith)) why in
      (rw done refl, rw done refl)
  with_retry_raises (suc j) initial room fails retry why =
      let (st, len) =
        go_on c.max_retries 0 c.base_delay none initial (omega arith) (fails 0 (omega arith))
          (retry 0 (omega arith)) in
      let (prev', last', st', len') =
        skip j (suc (c.max_retries - suc j)) c.max_retries 1 (delay_after r c 0 c.base_delay)
          (err 0) (err 0) (omega arith) (omega arith) (λ i lt. fails i (omega arith))
          (λ i lt. retry i (omega arith)) in
      let f : 1 + j ≡ suc j = omega arith in
      let done =
        gives_up (c.max_retries - suc j) (suc j) prev' (some (err 0)) last'
          (fails (suc j) (omega arith)) why in
      (st ∙ st' ∙ rw (f, done) refl, len ∙ rw len' (rw (f, done) (omega arith)))
