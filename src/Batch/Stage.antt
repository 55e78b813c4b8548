-- ===== src/Batch/Stage.antt =====
-- The accumulator and the batch stage of engine/pipeline.py cut a stream in the same way.
use comfyui_engine.Prelude.{
  ◌≡◌, refl, ap, inl, inr, true, false, List, [], ◌∷◌, ◌++◌, length, leb, Bool-cases, map,
}
use comfyui_engine.Batch.{Accumulator, arrives, flush, hand_over, hand_some, run}
use comfyui_engine.Batch.Delivery.{add_full, add_room}
use comfyui_engine.Pipeline.{last_batch, batch_from}
use comfyui_engine.Pipeline.Batches.{batch_from_full, batch_from_room}

module _ {A : Type 0} where
  hand_over-eq-last_batch : (b : List A) → hand_over b [] ≡ last_batch b
  unfolding hand_over last_batch
  hand_over-eq-last_batch [] = refl
  hand_over-eq-last_batch (x ∷ xs) = refl

  -- If the timer never fires, `run` hands over exactly the batches that a `BatchStage` of the same
  -- size yields, starting from the items that the buffer already holds.
  run-eq-batch_from :
      (items : List A) (a : Accumulator A)
      → run (map arrives items) a ≡ batch_from a.max_size a.buffer items
  unfolding run flush batch_from
  run-eq-batch_from [] a = hand_over-eq-last_batch a.buffer
  run-eq-batch_from (x ∷ xs) a = elim (Bool-cases (leb a.max_size (length (a.buffer ++ x ∷ [])))) [
    | inl full ↦
        rw (add_full x a full, hand_some, batch_from_full a.max_size a.buffer x xs full)
          (ap (◌∷◌ (a.buffer ++ x ∷ []))
            (run-eq-batch_from xs (record a { buffer = []; dirty = false })))
    | inr room ↦
        rw (add_room x a room, hand_some, batch_from_room a.max_size a.buffer x xs room)
          (run-eq-batch_from xs (record a { buffer = a.buffer ++ x ∷ []; dirty = true }))
  ]
