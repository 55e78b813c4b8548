-- ===== src/Batch/Delivery.antt =====
-- Nothing is lost, repeated or reordered, and no batch is empty or too large.
use comfyui_engine.Prelude.{
  ℕ, ◌≤◌, ◌<◌, ◌≡◌, refl, ◌∙◌, ap, inl, inr, true, false, none, some, List, [], ◌∷◌, ◌++◌,
  append_assoc, arith, length, length-append, concat, All, leb, Bool-cases,
}
use comfyui_engine.Batch.{
  Accumulator, make, Event, arrives, timer, add, flush, hand_over, hand_some, run,
}

-- The items that arrive during a sequence of events.
abbrev pub items : {A : Type 0} → List (Event A) → List A
items [] = []
items (arrives x ∷ events) = x ∷ items events
items (timer ∷ events) = items events

-- A batch that is neither empty nor larger than a bound.
abbrev pub IsBatch : {A : Type 0} → ℕ → List A → Type 0
IsBatch n b = (0 < length b) × (length b ≤ n)

-- The buffer is below the size that flushes it, and the dirty flag tells whether it holds items.
pub record IsValid {A : Type 0} (a : Accumulator A) : Type 0 where
  pub below : length a.buffer < a.max_size
  pub clean : a.dirty ≡ false → length a.buffer ≡ 0

-- The constructor refuses what it should and otherwise builds a valid, empty accumulator.
pub make-IsValid :
    {A : Type 0} (size timeout : ℕ) {a : Accumulator A} → make size timeout ≡ some a → IsValid a
unfolding make
make-IsValid size timeout h = ground arith

module _ {A : Type 0} where
  concat-hand_over :
      (b : List A) (later : List (List A)) → concat (hand_over b later) ≡ b ++ concat later
  unfolding hand_over
  concat-hand_over [] later = refl
  concat-hand_over (x ∷ xs) later = refl

  hand_over-All :
      (n : ℕ) (b : List A) (later : List (List A))
      → length b ≤ n
      → All (IsBatch n) later
      → All (IsBatch n) (hand_over b later)
  unfolding hand_over
  hand_over-All n [] later h rest = rest
  hand_over-All n (x ∷ xs) later h rest = ((omega arith, h), rest)

  pub add_full :
      (x : A) (a : Accumulator A)
      → leb a.max_size (length (a.buffer ++ x ∷ [])) ≡ true
      → add x a ≡ (some (a.buffer ++ x ∷ []), record a { buffer = []; dirty = false })
  unfolding add
  add_full x a h = rw h refl

  pub add_room :
      (x : A) (a : Accumulator A)
      → leb a.max_size (length (a.buffer ++ x ∷ [])) ≡ false
      → add x a ≡ (none, record a { buffer = a.buffer ++ x ∷ []; dirty = true })
  unfolding add
  add_room x a h = rw h refl

  -- Whatever the interleaving of arrivals and timer flushes, the batches handed over, one after the
  -- other, are what was in the buffer followed by the items that arrived, in order, each once.
  pub concat-run :
      (events : List (Event A)) (a : Accumulator A)
      → concat (run events a) ≡ a.buffer ++ items events
  unfolding run flush
  concat-run [] a = concat-hand_over a.buffer []
  concat-run (arrives x ∷ events) a =
      elim (Bool-cases (leb a.max_size (length (a.buffer ++ x ∷ [])))) [
        | inl full ↦
            rw (add_full x a full, hand_some)
              (ap (λ l. (a.buffer ++ x ∷ []) ++ l)
                  (concat-run events (record a { buffer = []; dirty = false }))
                ∙ append_assoc a.buffer (x ∷ []) (items events))
        | inr room ↦
            rw (add_room x a room, hand_some)
              (concat-run events (record a { buffer = a.buffer ++ x ∷ []; dirty = true })
                ∙ append_assoc a.buffer (x ∷ []) (items events))
      ]
  concat-run (timer ∷ events) a = elim (Bool-cases a.dirty) [
    | inl dirty ↦ rw dirty (
        concat-hand_over a.buffer (run events (record a { buffer = []; dirty = false }))
        ∙ ap (λ l. a.buffer ++ l) (concat-run events (record a { buffer = []; dirty = false })))
    | inr clean ↦ simp clean (concat-hand_over [] (run events a) ∙ concat-run events a)
  ]

  add_full-IsValid :
      (x : A) (a : Accumulator A) → IsValid a → IsValid (record a { buffer = []; dirty = false })
  add_full-IsValid x a v = record { below = omega (arith, v.below); clean = λ e. refl }

  add_room-IsValid :
      (x : A) (a : Accumulator A)
      → leb a.max_size (length (a.buffer ++ x ∷ [])) ≡ false
      → IsValid (record a { buffer = a.buffer ++ x ∷ []; dirty = true })
  add_room-IsValid x a room = record { below = ground arith; clean = λ e. cc }

  -- From a valid accumulator, whatever the interleaving, every batch handed over holds at least one
  -- item and at most `max_size`.
  run-IsBatch :
      (events : List (Event A)) (a : Accumulator A)
      → IsValid a
      → All (IsBatch a.max_size) (run events a)
  unfolding run flush
  run-IsBatch [] a v = hand_over-All a.max_size a.buffer [] (omega (arith, v.below)) tt
  run-IsBatch (arrives x ∷ events) a v =
      elim (Bool-cases (leb a.max_size (length (a.buffer ++ x ∷ [])))) [
        | inl full ↦
            rw (add_full x a full, hand_some)
              (
                (
                  omega (arith, length-append a.buffer (x ∷ [])),
                  omega (arith, length-append a.buffer (x ∷ []), v.below),
                ),
                run-IsBatch events (record a { buffer = []; dirty = false })
                    (add_full-IsValid x a v),
              )
        | inr room ↦
            rw (add_room x a room, hand_some)
              (run-IsBatch events (record a { buffer = a.buffer ++ x ∷ []; dirty = true })
                (add_room-IsValid x a room))
      ]
  run-IsBatch (timer ∷ events) a v = elim (Bool-cases a.dirty) [
    | inl dirty ↦ simp dirty (
        hand_over-All a.max_size a.buffer _ (omega (arith, v.below)) (
          run-IsBatch events (record a { buffer = []; dirty = false })
            (record { below = omega (arith, v.below); clean = λ e. refl })))
    | inr clean ↦
        simp clean
          (hand_over-All a.max_size [] (run events a) (omega arith) (run-IsBatch events a v))
  ]
