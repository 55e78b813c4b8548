-- ===== src/Pipeline/Batches.antt =====
-- The stages against the list operations that they stand for, and the shape of the batches.
use comfyui_engine.Prelude.{
  ℕ, suc, ◌+◌, ◌≤◌, ◌<◌, ◌≡◌, refl, sym, ◌∙◌, ap, inl, inr, Bool, true, false, List, [], ◌∷◌, ◌++◌,
  append_assoc, append-nil, arith, length, length-append, concat, leb, Bool-cases, keep, map,
}
use comfyui_engine.Pipeline.{
  map_stage, filter_stage, last_batch, batch_from, batch_stage, pipe, drain, drain_to,
}

-- Every batch but the last has exactly the size, and the last has at least one item and at most the
-- size.
abbrev pub AreBatches : {A : Type 0} → ℕ → List (List A) → Type 0
AreBatches n [] = Unit
AreBatches n (b ∷ []) = (0 < length b) × (length b ≤ n)
AreBatches n (b ∷ d ∷ bs) = (length b ≡ n) × AreBatches n (d ∷ bs)

module _ {A : Type 0} where
  AreBatches-cons :
      (n : ℕ) (b : List A) (bs : List (List A))
      → 0 < n
      → length b ≡ n
      → AreBatches n bs
      → AreBatches n (b ∷ bs)
  AreBatches-cons n b [] pos e h = (omega arith, omega arith)
  AreBatches-cons n b (d ∷ bs) pos e h = (e, h)

  pub batch_from_full :
      (n : ℕ) (batch : List A) (x : A) (xs : List A)
      → leb n (length (batch ++ x ∷ [])) ≡ true
      → batch_from n batch (x ∷ xs) ≡ (batch ++ x ∷ []) ∷ batch_from n [] xs
  unfolding batch_from
  batch_from_full n batch x xs h = rw h refl

  pub batch_from_room :
      (n : ℕ) (batch : List A) (x : A) (xs : List A)
      → leb n (length (batch ++ x ∷ [])) ≡ false
      → batch_from n batch (x ∷ xs) ≡ batch_from n (batch ++ x ∷ []) xs
  unfolding batch_from
  batch_from_room n batch x xs h = rw h refl

  concat-last_batch : (batch : List A) → concat (last_batch batch) ≡ batch
  unfolding last_batch
  concat-last_batch [] = refl
  concat-last_batch (x ∷ xs) = append-nil (x ∷ xs)

  AreBatches-last_batch :
      (n : ℕ) (batch : List A) → length batch < n → AreBatches n (last_batch batch)
  unfolding last_batch
  AreBatches-last_batch n [] h = tt
  AreBatches-last_batch n (x ∷ xs) h = (omega arith, omega arith)

  concat-batch_from :
      (n : ℕ) (batch items : List A) → concat (batch_from n batch items) ≡ batch ++ items
  unfolding batch_from
  concat-batch_from n batch [] = concat-last_batch batch ∙ sym (append-nil batch)
  concat-batch_from n batch (x ∷ xs) = elim (Bool-cases (leb n (length (batch ++ x ∷ [])))) [
    | inl full ↦ rw (batch_from_full n batch x xs full) (
        ap (λ l. (batch ++ x ∷ []) ++ l) (concat-batch_from n [] xs)
        ∙ append_assoc batch (x ∷ []) xs)
    | inr room ↦
        rw (batch_from_room n batch x xs room)
          (concat-batch_from n (batch ++ x ∷ []) xs ∙ append_assoc batch (x ∷ []) xs)
  ]

  AreBatches-batch_from :
      (n : ℕ) (batch items : List A) → length batch < n → AreBatches n (batch_from n batch items)
  unfolding batch_from
  AreBatches-batch_from n batch [] h = AreBatches-last_batch n batch h
  AreBatches-batch_from n batch (x ∷ xs) h = elim (Bool-cases (leb n (length (batch ++ x ∷ [])))) [
    | inl full ↦ rw (batch_from_full n batch x xs full) (
        AreBatches-cons n (batch ++ x ∷ []) (batch_from n [] xs) (omega arith)
          (ground (arith, length-append batch (x ∷ [])))
          (AreBatches-batch_from n [] xs (omega arith)))
    | inr room ↦
        rw (batch_from_room n batch x xs room)
          (AreBatches-batch_from n (batch ++ x ∷ []) xs (ground arith))
  ]

  -- A batch stage of positive size keeps every item once and in order, fills every batch but the
  -- last to exactly the size, and yields no empty batch.
  pub batch_stage_lem :
      (n : ℕ) (items : List A)
      → 0 < n
      → (concat (batch_stage n items) ≡ items) × AreBatches n (batch_stage n items)
  unfolding batch_stage
  batch_stage_lem n items pos =
      (concat-batch_from n [] items, AreBatches-batch_from n [] items (omega arith))

  filter_stage-eq-keep : (p : A → Bool) (items : List A) → filter_stage p items ≡ keep p items
  unfolding filter_stage
  filter_stage-eq-keep p [] = refl
  filter_stage-eq-keep p (x ∷ xs) = ground (arith, filter_stage-eq-keep p xs)

  drain_to_from :
      (k : ℕ) (stream : List A)
      → ((drain_to k stream).0 ≡ stream) × ((drain_to k stream).1 ≡ k + length stream)
  unfolding drain_to
  drain_to_from k [] = (refl, omega arith)
  drain_to_from k (x ∷ xs) = let (s, n) = drain_to_from (suc k) xs in (ap (◌∷◌ x) s, omega arith)

  drain_lem : (stream : List A) → drain stream ≡ stream
  unfolding drain
  drain_lem [] = refl
  drain_lem (x ∷ xs) = ap (◌∷◌ x) (drain_lem xs)

map_stage-eq-map : {A B : Type 0} (fn : A → B) (items : List A) → map_stage fn items ≡ map fn items
unfolding map_stage
map_stage-eq-map fn [] = refl
map_stage-eq-map fn (x ∷ xs) = ap (◌∷◌ (fn x)) (map_stage-eq-map fn xs)

-- The stream of a pipeline of a map, a filter and a batch stage.
abbrev pub flow : {A B : Type 0} → (A → B) → (B → Bool) → ℕ → List A → List (List B)
flow fn p n source = pipe (pipe (pipe source (map_stage fn)) (filter_stage p)) (batch_stage n)

-- A pipeline of a map, a filter and a batch stage of positive size, drained into a sink, gives the
-- sink batches that together are the list of the mapped items that pass the filter, in order, each
-- batch but the last full and none empty, and returns the number of the batches that `drain`
-- collects, which are the same.
pub pipeline_lem :
    {A B : Type 0} (fn : A → B) (p : B → Bool) (n : ℕ) (source : List A)
    → 0 < n
    → (concat (drain_to 0 (flow fn p n source)).0 ≡ keep p (map fn source))
      × AreBatches n (drain_to 0 (flow fn p n source)).0
      × ((drain_to 0 (flow fn p n source)).1 ≡ length (drain (flow fn p n source)))
      × (drain (flow fn p n source) ≡ (drain_to 0 (flow fn p n source)).0)
unfolding pipe
pipeline_lem fn p n source pos =
    rw (map_stage-eq-map fn source, filter_stage-eq-keep p (map fn source))
      (let stream = batch_stage n (keep p (map fn source)) in
        let (sunk, count) = drain_to_from 0 stream in
        let (all_kept, shape) = batch_stage_lem n (keep p (map fn source)) pos in
        (rw sunk all_kept, rw sunk shape, rw drain_lem (omega arith), rw (drain_lem, sunk) refl))
