-- ===== src/DeadLetter/Bounds.antt =====
-- The queue holds the newest entries, up to its limit.
use comfyui_engine.Prelude.{
  ℕ, zero, suc, ◌+◌, ◌-◌, ◌≤◌, ◌≡◌, refl, ◌∙◌, inl, inr, List, [], ◌∷◌, ◌++◌, append_assoc,
  append-nil, arith, length, length-append, length-drop, drop, count_if, count_if-le, ltb,
  Bool-cases,
}
use comfyui_engine.DeadLetter.{
  max_retries_exceeded, circuit_breaker_open, timeout, validation_error, unknown_error, Entry,
  Queue, enforce_limit, persist_entry, add, get_stats, same_reason, has_handler,
}

module _ {P M : Type 0} where
  -- Entries added one after the other.
  pub add_all : List (Entry P M) → Queue P M → Queue P M
  unfolding add
  add_all [] q = q
  add_all (e ∷ es) q = add_all es (add e q)

  drop-drop-append :
      (d k : ℕ) (xs ys : List (Entry P M))
      → d ≤ length xs
      → drop k (drop d xs ++ ys) ≡ drop (d + k) (xs ++ ys)
  drop-drop-append zero k xs ys h = let e : 0 + k ≡ k = omega arith in rw e refl
  drop-drop-append (suc d) k [] ys h = absurd (omega arith)
  drop-drop-append (suc d) k (x ∷ xs) ys h =
      let e : suc d + k ≡ suc (d + k) = omega arith in
      rw e (drop-drop-append d k xs ys (omega arith))

  enforce_limit-entries :
      (l : List (Entry P M)) (q : Queue P M)
      → length l ≤ q.max_entries + 1
      → ((enforce_limit l q).entries ≡ drop (length l - q.max_entries) l)
        × ((enforce_limit l q).max_entries ≡ q.max_entries)
  unfolding enforce_limit
  enforce_limit-entries [] q h = let e : 0 - q.max_entries ≡ 0 = omega arith in (rw e refl, refl)
  enforce_limit-entries (x ∷ xs) q h = elim (Bool-cases (ltb q.max_entries (length (x ∷ xs)))) [
    | inl over ↦
        let e : suc (length xs) - q.max_entries ≡ 1 = ground arith in
        (rw over (rw e refl), rw over refl)
    | inr fits ↦
        let e : suc (length xs) - q.max_entries ≡ 0 = ground arith in
        (rw fits (rw e refl), rw fits refl)
  ]

  add-entries :
      (e : Entry P M) (q : Queue P M)
      → length q.entries ≤ q.max_entries
      → ((add e q).entries ≡ drop (length q.entries + 1 - q.max_entries) (q.entries ++ e ∷ []))
        × ((add e q).max_entries ≡ q.max_entries)
  unfolding add
  add-entries e q h =
      let l : length (q.entries ++ e ∷ []) ≡ length q.entries + 1 =
        length-append q.entries (e ∷ []) in
      let (a, b) =
        enforce_limit-entries (q.entries ++ e ∷ []) (record q { disk = persist_entry e q.disk })
          (omega arith) in
      (a ∙ rw l refl, b)

  -- From a queue within its limit, entries added one after the other leave it with the newest ones:
  -- the old entries followed by the new, less those at the front that exceed the limit.
  add_all-entries :
      (es : List (Entry P M)) (q : Queue P M)
      → length q.entries ≤ q.max_entries
      → (add_all es q).entries
        ≡ drop (length q.entries + length es - q.max_entries) (q.entries ++ es)
  unfolding add_all
  add_all-entries [] q h =
      let e : length q.entries + 0 - q.max_entries ≡ 0 = omega arith in rw (e, append-nil) refl
  add_all-entries (e ∷ es) q h =
      let over = length q.entries + 1 - q.max_entries in
      let l : length (q.entries ++ e ∷ []) ≡ length q.entries + 1 =
        length-append q.entries (e ∷ []) in
      let (a, b) = add-entries e q h in
      let n : length (add e q).entries ≡ length q.entries + 1 - over =
        rw (a, length-drop, l) refl in
      let sum : over + (length q.entries + 1 - over + length es - q.max_entries)
          ≡ length q.entries + suc (length es) - q.max_entries =
        omega arith in
      add_all-entries es (add e q) (omega arith)
      ∙ rw (n, a, b)
          (drop-drop-append over (length q.entries + 1 - over + length es - q.max_entries)
              (q.entries ++ e ∷ []) es (omega arith)
            ∙ rw (sum, append_assoc) refl)

  count_reasons :
      (es : List (Entry P M))
      → count_if (λ e. same_reason e.reason max_retries_exceeded) es
          + count_if (λ e. same_reason e.reason circuit_breaker_open) es
          + count_if (λ e. same_reason e.reason timeout) es
          + count_if (λ e. same_reason e.reason validation_error) es
          + count_if (λ e. same_reason e.reason unknown_error) es
        ≡ length es
  count_reasons [] = omega arith
  count_reasons (e ∷ es) = ground (arith, count_reasons es)

  -- The counts by reason of `get_stats` add up to the number of entries, and no entry can be
  -- replayed that is not there.
  pub get_stats_total :
      (q : Queue P M)
      → ((get_stats q).by_reason max_retries_exceeded
            + (get_stats q).by_reason circuit_breaker_open
            + (get_stats q).by_reason timeout
            + (get_stats q).by_reason validation_error
            + (get_stats q).by_reason unknown_error
          ≡ (get_stats q).total_entries)
        × ((get_stats q).replayable ≤ (get_stats q).total_entries)
  unfolding get_stats
  get_stats_total q =
      (count_reasons q.entries, count_if-le (λ e. has_handler (q.handlers e.reason)) q.entries)
