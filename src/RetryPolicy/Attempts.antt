-- ===== src/RetryPolicy/Attempts.antt =====
-- How often the function is run, and what `execute` ends with.
use comfyui_engine.Prelude.{
  ℕ, zero, suc, ◌+◌, ◌-◌, ◌<◌, ◌≡◌, refl, ◌⊎◌, inl, inr, true, false, [], arith, length, ◌==◌,
  Bool-cases, ◌∙◌,
}
use comfyui_engine.Random.{Random}
use comfyui_engine.Deadline.{Var}
use comfyui_engine.RetryPolicy.{
  Policy, Attempt, returned, retryable, value, exhausted, deadline_stops, attempts_from, execute,
}

module _ {E A : Type 0} (r : Random) (p : Policy) (clock : ℕ → ℕ) (var : Var)
    (run : ℕ → Attempt E A) (err : ℕ → E) where
  -- The attempts below a number all raise retryable exceptions, the given ones.
  abbrev pub AllFail : ℕ → Type 0
  AllFail n = (i : ℕ) → i < n → run i ≡ retryable (err i)

  -- The deadline stops none of the attempts below a number.
  abbrev pub NoneStopped : ℕ → Type 0
  NoneStopped n = (i : ℕ) → i < n → deadline_stops r p clock var i ≡ false

  go_on :
      (rounds i : ℕ) (last : E)
      → i + 1 < p.max_attempts
      → run i ≡ retryable (err i)
      → deadline_stops r p clock var i ≡ false
      → ((attempts_from r p clock var run (suc rounds) i last).0
          ≡ (attempts_from r p clock var run rounds (i + 1) (err i)).0)
        × (length (attempts_from r p clock var run (suc rounds) i last).1
            ≡ suc (length (attempts_from r p clock var run rounds (i + 1) (err i)).1))
  unfolding attempts_from
  go_on rounds i last more fails soon = elim (Bool-cases (i == p.max_attempts - 1)) [
    | inl end ↦ absurd (ground arith)
    | inr more' ↦ rw (fails, attempts_from) (rw more' (rw soon (refl, refl)))
  ]

  -- Failing attempts that are not stopped leave the loop at the attempt after them.
  skip :
      (k rounds total i : ℕ) (last : E)
      → total ≡ k + rounds
      → i + k < p.max_attempts
      → AllFail (i + k)
      → NoneStopped (i + k)
      → (last' : E) × ((attempts_from r p clock var run total i last).0
          ≡ (attempts_from r p clock var run rounds (i + k) last').0)
        × (length (attempts_from r p clock var run total i last).1
            ≡ k + length (attempts_from r p clock var run rounds (i + k) last').1)
  skip zero rounds total i last e room fails soon =
      let e' : total ≡ rounds = omega arith in
      let f : i + 0 ≡ i = omega arith in (last, rw (e', f) refl, rw (e', f) (omega arith))
  skip (suc k) rounds zero i last e room fails soon = absurd (omega arith)
  skip (suc k) rounds (suc total) i last e room fails soon =
      let (st, len) =
        go_on total i last (omega arith) (fails i (omega arith)) (soon i (omega arith)) in
      let f : i + suc k ≡ i + 1 + k = omega arith in
      let (last', st', len') =
        skip k rounds total (i + 1) (err i) (omega arith) (omega arith)
          (λ j h. fails j (omega arith)) (λ j h. soon j (omega arith)) in
      (last', rw f (st ∙ st'), rw f (omega arith))

  returns_at :
      (rounds i : ℕ) (last : E) {a : A}
      → run i ≡ returned a
      → attempts_from r p clock var run (suc rounds) i last ≡ (value a, [])
  unfolding attempts_from
  returns_at rounds i last h = rw (h, attempts_from) refl

  gives_up :
      (rounds i : ℕ) (last : E)
      → run i ≡ retryable (err i)
      → (i + 1 ≡ p.max_attempts) ⊎ (deadline_stops r p clock var i ≡ true)
      → attempts_from r p clock var run (suc rounds) i last ≡ (exhausted (i + 1) (err i), [])
  unfolding attempts_from
  gives_up rounds i last h why = elim (Bool-cases (i == p.max_attempts - 1)) [
    | inl end ↦ rw (h, attempts_from) (rw end refl)
    | inr more ↦ elim why [
      | inl last_one ↦ absurd (ground arith)
      | inr late ↦ rw (h, attempts_from) (rw more (rw late refl))
    ]
  ]

  -- If the first attempts all raise retryable exceptions, the deadline stops none of them, and the
  -- next one, still within the number of attempts, returns, then `execute` returns its value after
  -- sleeping once for each failed attempt.
  pub execute_returns :
      (j : ℕ) {a : A} (no_attempts : E)
      → j < p.max_attempts
      → AllFail j
      → NoneStopped j
      → run j ≡ returned a
      → ((execute r p clock var run no_attempts).0 ≡ value a)
        × (length (execute r p clock var run no_attempts).1 ≡ j)
  unfolding execute
  execute_returns j no_attempts room fails soon h =
      let rounds = p.max_attempts - j - 1 in
      let (last', st, len) =
        skip j (suc rounds) p.max_attempts 0 no_attempts (omega arith) (omega arith)
          (λ i lt. fails i (omega arith)) (λ i lt. soon i (omega arith)) in
      let f : 0 + j ≡ j = omega arith in
      let done = returns_at rounds j last' h in
      (st ∙ rw (f, done) refl, len ∙ rw (f, done) (omega arith))

  -- If the attempts up to one all raise retryable exceptions, the deadline stops none before the
  -- last of them, and that one is the last allowed or is stopped by the deadline, then `execute`
  -- raises `RetryExhaustedError` with the number of attempts made and the last exception, having
  -- slept once for each attempt before the last.
  execute_exhausts :
      (j : ℕ) (no_attempts : E)
      → j < p.max_attempts
      → AllFail (j + 1)
      → NoneStopped j
      → (j + 1 ≡ p.max_attempts) ⊎ (deadline_stops r p clock var j ≡ true)
      → ((execute r p clock var run no_attempts).0 ≡ exhausted (j + 1) (err j))
        × (length (execute r p clock var run no_attempts).1 ≡ j)
  unfolding execute
  execute_exhausts j no_attempts room fails soon why =
      let rounds = p.max_attempts - j - 1 in
      let (last', st, len) =
        skip j (suc rounds) p.max_attempts 0 no_attempts (omega arith) (omega arith)
          (λ i lt. fails i (omega arith)) (λ i lt. soon i (omega arith)) in
      let f : 0 + j ≡ j = omega arith in
      let done = gives_up rounds j last' (fails j (omega arith)) why in
      (st ∙ rw (f, done) refl, len ∙ rw (f, done) (omega arith))
