-- ===== src/WebSocket/Messages.antt =====
-- What becomes of the messages.
use comfyui_engine.Prelude.{
  ℕ, zero, suc, ◌+◌, ◌≡◌, refl, sym, ap, ◌∙◌, ◌⊎◌, inl, inr, arith, Bool, true, false, ◌&&◌, Option,
  none, some, List, [], ◌∷◌, ◌++◌, append_assoc, append-nil, length, count_if, if◌then◌else◌,
  Bool-cases,
}
use comfyui_engine.WebSocket.{Manager, is_connected, send, send_first, add_count, flush_queue}

module _ {D : Type 0} where
  -- How many messages of a kind were sent or are queued.
  abbrev pub held : (D → Bool) → Manager D → ℕ
  held p m = count_if p m.sent + count_if p m.message_queue

  count_if-append :
      (p : D → Bool) (xs ys : List D) → count_if p (xs ++ ys) ≡ count_if p xs + count_if p ys
  count_if-append p [] ys = omega arith
  count_if-append p (x ∷ xs) ys = omega (arith, count_if-append p xs ys)

  held-send_first :
      (p : D → Bool) (ok : Bool) (d : D) (ds : List D) (m : Manager D)
      → m.message_queue ≡ d ∷ ds
      → held p (send_first ok d ds m).0 ≡ held p m
  unfolding send_first send is_connected
  held-send_first p ok d ds m e = elim (Bool-cases (is_connected m && ok)) [
    | inl sends ↦ rw (sends, e) (omega (arith, count_if-append p m.sent (d ∷ [])))
    | inr queues ↦ rw (queues, e) (omega (arith, count_if-append p ds (d ∷ [])))
  ]

  List-cases : (xs : List D) → (xs ≡ []) ⊎ ((x : D) × (ys : List D) × (xs ≡ x ∷ ys))
  List-cases [] = inl refl
  List-cases (x ∷ xs) = inr (x, xs, refl)

  held-after :
      (p : D → Bool) (m m' m'' : Manager D) (a k : ℕ) (o : Option (Manager D × ℕ))
      → ((m₁ : Manager D) (j : ℕ) → o ≡ some (m₁, j) → held p m₁ ≡ held p m'')
      → held p m'' ≡ held p m
      → add_count a o ≡ some (m', k)
      → held p m' ≡ held p m
  unfolding add_count
  held-after p m m' m'' a k none h same e = absurd (cc e)
  held-after p m m' m'' a k (some (m₁, j)) h same e =
      let is_last : m₁ ≡ m' = cc e in rw (sym is_last) (h m₁ j refl ∙ same)

  -- A round of a flush.
  flush_queue-cons :
      (answers : ℕ → Bool) (n : ℕ) (m : Manager D) (d : D) (ds : List D)
      → m.message_queue ≡ d ∷ ds
      → is_connected m ≡ true
      → flush_queue answers (suc n) m
        ≡ add_count
            (if (send_first (answers n) d ds m).1 then 1 else 0)
            (flush_queue answers n (send_first (answers n) d ds m).0)
  unfolding flush_queue
  flush_queue-cons answers n m d ds q up = rw (flush_queue, q, up) refl

  -- No message is lost or doubled by a flush that ends, whatever the server answers: of every kind
  -- as many messages were sent or are queued after it as before.
  held-flush_queue :
      (p : D → Bool) (answers : ℕ → Bool) (n : ℕ) (m m' : Manager D) (k : ℕ)
      → flush_queue answers n m ≡ some (m', k)
      → held p m' ≡ held p m
  unfolding flush_queue
  held-flush_queue p answers zero m m' k e = absurd (cc e)
  held-flush_queue p answers (suc n) m m' k e = elim (List-cases m.message_queue) [
    | inl empty ↦ (let same : m ≡ m' = cc (rw (flush_queue, empty) at e) in rw (sym same) refl)
    | inr (d, ds, q) ↦ elim (Bool-cases (is_connected m)) [
      | inr down ↦ (let same : m ≡ m' = cc (rw (flush_queue, q, down) at e) in rw (sym same) refl)
      | inl up ↦
          (let next = (send_first (answers n) d ds m).0 in
            held-after p m m' next (if (send_first (answers n) d ds m).1 then 1 else 0) k
              (flush_queue answers n next) (held-flush_queue p answers n next)
              (held-send_first p (answers n) d ds m q)
              (sym (flush_queue-cons answers n m d ds q up) ∙ e))
    ]
  ]

  snoc-cons : (ds : List D) (d : D) → (x : D) × (xs : List D) × (ds ++ d ∷ [] ≡ x ∷ xs)
  snoc-cons [] d = (d, [], refl)
  snoc-cons (y ∷ ys) d = (y, ys ++ d ∷ [], refl)

  -- A flush over a connection on which every send fails does not end, unless the queue is empty:
  -- every message goes back to the end of the queue.
  pub flush_queue-never :
      (n : ℕ) (m : Manager D) (d : D) (ds : List D)
      → is_connected m ≡ true
      → m.message_queue ≡ d ∷ ds
      → flush_queue (λ i. false) n m ≡ none
  unfolding flush_queue send_first send is_connected add_count
  flush_queue-never zero m d ds up e = refl
  flush_queue-never (suc n) m d ds up e =
      let next = snoc-cons ds d in
      let never =
        flush_queue-never n (record m { message_queue = ds ++ d ∷ [] }) next.0 next.1 up next.2 in
      rw (flush_queue, e, up, never) refl

  send_first-up :
      (m : Manager D) (d : D) (ds : List D)
      → is_connected m ≡ true
      → send_first true d ds m ≡ (record m { message_queue = ds; sent = m.sent ++ d ∷ [] }, true)
  unfolding send_first send is_connected
  send_first-up m d ds up = rw up refl

  -- A flush over a connection on which every send succeeds sends the whole queue in its order.
  pub flush_queue_lem :
      (ds : List D) (m : Manager D)
      → is_connected m ≡ true
      → m.message_queue ≡ ds
      → flush_queue (λ i. true) (suc (length ds)) m
        ≡ some (record m { message_queue = []; sent = m.sent ++ ds }, length ds)
  unfolding flush_queue is_connected add_count
  flush_queue_lem [] m up e =
      rw (flush_queue, e, append-nil m.sent) (ap (λ q. some (record m { message_queue = q }, 0)) e)
  flush_queue_lem (d ∷ ds) m up e =
      let rest =
        flush_queue_lem ds (record m { message_queue = ds; sent = m.sent ++ d ∷ [] }) up refl in
      let count : 1 + length ds ≡ suc (length ds) = omega arith in
      flush_queue-cons (λ i. true) (suc (length ds)) m d ds e up
      ∙ rw (send_first-up m d ds up, rest, append_assoc m.sent (d ∷ []) ds)
          (ap (λ k. some (record m { message_queue = []; sent = m.sent ++ d ∷ ds }, k)) count)
