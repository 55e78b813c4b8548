-- ===== src/Tests/Streams.antt =====
-- Tests and instances for engine/batch.py, engine/pipeline.py and engine/shm_channel.py.
use comfyui_engine.Prelude.{
  ℕ, ◌+◌, ◌%◌, ◌≡◌, ◌≢◌, refl, Bool, false, none, some, List, [], ◌∷◌, arith, length, map, concat,
  keep, ltb,
}
use comfyui_engine.Batch.{Accumulator, Event, arrives, timer, make, pending, run}
use comfyui_engine.Batch.Delivery.{concat-run}
use comfyui_engine.Pipeline.{
  map_stage, filter_stage, make_batch_stage, batch_stage, pipe, drain, drain_to,
}
use comfyui_engine.Pipeline.Batches.{AreBatches, flow, pipeline_lem}
use comfyui_engine.Channel.{Shm, create, write, write_all, read_if_new, seq_mod}
use comfyui_engine.Channel.Latest.{read-write_all}

abbrev pairs : Accumulator ℕ
pairs = record { max_size = 2; buffer = []; dirty = false }

abbrev events : List (Event ℕ)
events = arrives 1 ∷ timer ∷ timer ∷ arrives 2 ∷ arrives 3 ∷ arrives 4 ∷ []

made : (make {A = ℕ} 2 5 ≡ some pairs) × (make {A = ℕ} 0 5 ≡ none) × (make {A = ℕ} 2 0 ≡ none)
unfolding make
made = (refl, refl, refl)

batches : run events pairs ≡ (1 ∷ []) ∷ (2 ∷ 3 ∷ []) ∷ (4 ∷ []) ∷ []
unfolding run
batches = refl

none_pending : pending pairs ≡ 0
unfolding pending
none_pending = refl

concat-run_example : concat (run events pairs) ≡ 1 ∷ 2 ∷ 3 ∷ 4 ∷ []
concat-run_example = concat-run events pairs

no_batch_stage : make_batch_stage {A = ℕ} 0 ≡ none
unfolding make_batch_stage
no_batch_stage = refl

abbrev small : ℕ → Bool
small n = ltb n 5

abbrev next : ℕ → ℕ
next n = n + 1

piped : drain_to 0 (flow next small 2 (1 ∷ 2 ∷ 6 ∷ 3 ∷ [])) ≡ ((2 ∷ 3 ∷ []) ∷ (4 ∷ []) ∷ [], 2)
unfolding drain_to pipe map_stage filter_stage batch_stage
piped = refl

pipeline_lem_example :
    (concat (drain_to 0 (flow next small 2 (1 ∷ 2 ∷ 6 ∷ 3 ∷ []))).0
      ≡ keep small (map next (1 ∷ 2 ∷ 6 ∷ 3 ∷ [])))
    × AreBatches 2 (drain_to 0 (flow next small 2 (1 ∷ 2 ∷ 6 ∷ 3 ∷ []))).0
    × ((drain_to 0 (flow next small 2 (1 ∷ 2 ∷ 6 ∷ 3 ∷ []))).1
        ≡ length (drain (flow next small 2 (1 ∷ 2 ∷ 6 ∷ 3 ∷ []))))
    × (drain (flow next small 2 (1 ∷ 2 ∷ 6 ∷ 3 ∷ []))
        ≡ (drain_to 0 (flow next small 2 (1 ∷ 2 ∷ 6 ∷ 3 ∷ []))).0)
pipeline_lem_example = pipeline_lem next small 2 (1 ∷ 2 ∷ 6 ∷ 3 ∷ []) (omega arith)

abbrev segment : Shm
segment = record { write_seq = 0; read_seq = 0; data_len = 0; bytes = 0 ∷ 0 ∷ 0 ∷ [] }

created : create 3 ≡ segment
unfolding create
created = refl

-- A channel that `open` gives a data size of 4 on a segment of 3 bytes.
past_the_segment : write 4 (1 ∷ 2 ∷ 3 ∷ 4 ∷ []) segment ≡ none
unfolding write
past_the_segment = refl

too_large : write 3 (1 ∷ 2 ∷ 3 ∷ 4 ∷ []) segment ≡ none
unfolding write
too_large = refl

read-write_all_example :
    (s' : Shm) × (write_all 3 ((1 ∷ 2 ∷ []) ∷ (7 ∷ []) ∷ []) segment ≡ some s')
    × (2 % seq_mod ≢ 0
        → ((read_if_new s').0 ≡ some (7 ∷ []))
          × (read_if_new (read_if_new s').1 ≡ (none, (read_if_new s').1)))
    × (2 % seq_mod ≡ 0 → read_if_new s' ≡ (none, s'))
read-write_all_example =
    read-write_all 3 (1 ∷ 2 ∷ []) ((7 ∷ []) ∷ []) segment
      ((omega arith, omega arith), ((omega arith, omega arith), tt)) refl (omega arith)
