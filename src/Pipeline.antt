-- ===== src/Pipeline.antt =====
-- engine/pipeline.py: composable stages over an asynchronous stream. A finite stream is the list of
-- its items, and a stage is the function from the items that it reads to those that it yields.
-- Whether a function of `MapStage` returns a coroutine or a value makes no difference to the items.
pub mod Batches
use comfyui_engine.Prelude.{
  ℕ, suc, Option, none, some, List, [], ◌∷◌, ◌++◌, Bool, length, ltb, leb, if◌then◌else◌,
}

-- `MapStage.process`
unfoldable pub map_stage : {A B : Type 0} → (A → B) → List A → List B
map_stage fn [] = []
map_stage fn (item ∷ items) = fn item ∷ map_stage fn items

-- `FilterStage.process`
unfoldable pub filter_stage : {A : Type 0} → (A → Bool) → List A → List A
filter_stage pred [] = []
filter_stage pred (item ∷ items) =
    let rest = filter_stage pred items in if pred item then item ∷ rest else rest

module _ {A : Type 0} where
  unfoldable pub last_batch : List A → List (List A)
  last_batch [] = []
  last_batch (x ∷ xs) = (x ∷ xs) ∷ []

  -- The loop of `BatchStage.process`, with the batch that is being filled.
  unfoldable pub batch_from : ℕ → List A → List A → List (List A)
  unfolding last_batch
  batch_from size batch [] = last_batch batch
  batch_from size batch (item ∷ items) =
      let batch' = batch ++ item ∷ [] in
      let full = leb size (length batch') in
      let rest = batch_from size (if full then [] else batch') items in
      if full then batch' ∷ rest else rest

  unfoldable pub batch_stage : ℕ → List A → List (List A)
  unfolding batch_from
  batch_stage size items = batch_from size [] items

-- The constructor of `BatchStage` raises `ValueError` (`none` here) for a size below one.
unfoldable pub make_batch_stage : {A : Type 0} → ℕ → Option (List A → List (List A))
unfolding batch_stage
make_batch_stage size = if ltb size 1 then none else some (batch_stage size)

-- A pipeline is its stream; `pipe` replaces the stream by what the stage makes of it.
unfoldable pub pipe : {A B : Type 0} → List A → (List A → List B) → List B
pipe stream stage = stage stream

pub drain : {A : Type 0} → List A → List A
drain [] = []
drain (item ∷ stream) = item ∷ drain stream

-- `drain_to`: the items given to the sink, in order, and the count that is returned.
unfoldable pub drain_to : {A : Type 0} → ℕ → List A → List A × ℕ
drain_to count [] = ([], count)
drain_to count (item ∷ stream) = let (sunk, n) = drain_to (suc count) stream in (item ∷ sunk, n)
