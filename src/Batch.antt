-- ===== src/Batch.antt =====
-- engine/batch.py: the accumulator that flushes on size or on a timeout. The lock makes `add` and
-- `flush` single steps. `run` is a sequence of events: an item of the source arrives, or the
-- watcher, after its wait for the dirty event and its sleep, comes to flush. The result is the list
-- of the batches that are handed to `on_batch`, in order; what `on_batch` does with a batch, and
-- whether the cancellation at the end of `run` interrupts it, is outside the model.
pub mod Delivery
pub mod Stage
use comfyui_engine.Prelude.{
  ℕ, Bool, true, false, Option, none, some, List, [], ◌∷◌, ◌++◌, length, ltb, leb, ◌==◌,
  if◌then◌else◌,
}

pub record Accumulator (A : Type 0) : Type 0 where
  pub max_size : ℕ
  pub buffer : List A
  pub dirty : Bool

-- The constructor raises `ValueError` (`none` here) for a size or a timeout that is not positive.
unfoldable pub make : {A : Type 0} → ℕ → ℕ → Option (Accumulator A)
make max_size flush_timeout =
    if ltb max_size 1
    then none
    else if flush_timeout == 0
    then none
    else some (record { max_size = max_size; buffer = []; dirty = false })

-- What may happen while `run` waits.
pub data Event (A : Type 0) : Type 0 where
  arrives : A → Event A
  timer : Event A

module _ {A : Type 0} where
  take_buffer : Accumulator A → List A × Accumulator A
  take_buffer a = (a.buffer, record a { buffer = []; dirty = false })

  pub add : A → Accumulator A → Option (List A) × Accumulator A
  unfolding take_buffer
  add item a =
      let a' : Accumulator A = record a { buffer = a.buffer ++ item ∷ []; dirty = true } in
      if leb a'.max_size (length a'.buffer)
      then (some (take_buffer a').0, (take_buffer a').1)
      else (none, a')

  pub flush : Accumulator A → List A × Accumulator A
  unfolding take_buffer
  flush a = take_buffer a

  unfoldable pub pending : Accumulator A → ℕ
  pending a = length a.buffer

  -- `if b: await on_batch(b)`
  unfoldable pub hand_over : List A → List (List A) → List (List A)
  hand_over [] later = later
  hand_over (x ∷ xs) later = (x ∷ xs) ∷ later

  -- `if b is not None: await on_batch(b)`
  unfoldable pub hand_some : Option (List A) → List (List A) → List (List A)
  hand_some none later = later
  hand_some (some b) later = b ∷ later

  unfoldable pub run : List (Event A) → Accumulator A → List (List A)
  unfolding add flush hand_over hand_some
  run [] a = hand_over (flush a).0 []
  run (arrives item ∷ events) a =
      let (b, a') = add item a in let later = run events a' in hand_some b later
  run (timer ∷ events) a =
      let (b, a') = (if a.dirty then flush a else ([], a)) in
      let later = run events a' in hand_over b later
