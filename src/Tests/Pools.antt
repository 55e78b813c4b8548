-- ===== src/Tests/Pools.antt =====
-- Tests and instances for engine/worker_pool.py.
use comfyui_engine.Prelude.{◌≡◌, refl, arith, true, some, [], ◌∷◌, suc, zero}
use comfyui_engine.Pool.{Slot, Pool, start, pick_slot}
use comfyui_engine.Pool.Load.{begins, ends, dies, visits, run, IsValid, run-IsValid, slot_at}

abbrev idle : Slot
idle = record { is_running = true; pending = 0; restarts = 0; healthy = true }

abbrev loaded : Pool
loaded = record { max_restarts = 1; slots = record idle { pending = 3 } ∷ idle ∷ [] }

abbrev pair : Pool
pair = record { max_restarts = 1; slots = idle ∷ idle ∷ [] }

pair-IsValid : IsValid (pair, λ i. 0)
unfolding slot_at
pair-IsValid zero = (refl, omega arith)
pair-IsValid (suc zero) = (refl, omega arith)
pair-IsValid (suc (suc i)) = tt

started : start 2 1 ≡ pair
unfolding start
started = refl

second_is_picked : pick_slot loaded ≡ some 1
unfolding pick_slot
second_is_picked = refl

run-IsValid_example :
    IsValid (run (begins ∷ begins ∷ dies 0 ∷ visits 0 true ∷ ends 1 ∷ []) (pair, λ i. 0))
run-IsValid_example =
    run-IsValid (begins ∷ begins ∷ dies 0 ∷ visits 0 true ∷ ends 1 ∷ []) (pair, λ i. 0) pair-IsValid
