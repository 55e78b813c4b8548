-- ===== src/Tests/Queues.antt =====
-- Tests and instances for engine/queue.py. Payloads are numbers.
use comfyui_engine.Prelude.{ℕ, ◌≡◌, refl, Bool, ltb, Option, none, some, List, [], ◌∷◌}
use comfyui_engine.JobQueue.{PrioritizedJob, Queue, enqueue, taken_at}
use comfyui_engine.JobQueue.Order.{Op, Result, enqueues, dequeues, taken, run}
use comfyui_engine.Tests.Heaps.{list_queue}

abbrev Jobs : Type 0
Jobs = List (PrioritizedJob ℕ)

abbrev small : Queue Jobs
small = record { items = []; max_size = 2; interval = some 10; last_dequeue_time = none }

abbrev job : ℕ → ℕ → ℕ → PrioritizedJob ℕ
job priority now payload = record { priority = priority; created_at = now; payload = payload }

abbrev last_result : List (Result ℕ) → Option (Result ℕ)
last_result [] = none
last_result (r ∷ []) = some r
last_result (r ∷ s ∷ rs) = last_result (s ∷ rs)

urgent_first :
    last_result
      (run list_queue ((enqueues 2 7, 1) ∷ (enqueues 0 8, 2) ∷ (dequeues, 3) ∷ []) small).1
    ≡ some (taken 3 (job 0 2 8))
unfolding run list_queue
urgent_first = refl

full_is_refused :
    enqueue list_queue 3 1 9 (run list_queue ((enqueues 2 7, 1) ∷ (enqueues 0 8, 2) ∷ []) small).0
    ≡ none
unfolding run enqueue list_queue
full_is_refused = refl

rate_limited : taken_at 5 (some 10) (some 2) ≡ 12
unfolding taken_at
rate_limited = refl

abbrev calls : List (Op ℕ × ℕ)
calls = (enqueues 2 7, 1) ∷ (dequeues, 2) ∷ (enqueues 0 8, 3) ∷ []

abbrev is_urgent : PrioritizedJob ℕ → Bool
is_urgent j = ltb j.priority 1
