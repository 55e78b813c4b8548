-- ===== src/Distributed/Attempts.antt =====
-- What becomes of a job that is enqueued.
use comfyui_engine.Prelude.{ℕ, ◌+◌, ◌≡◌, false, some, List, [], ◌∷◌, String, str_eq, if◌then◌else◌}
use comfyui_engine.Distributed.Redis.{Redis}
use comfyui_engine.Distributed.Jobs.{Job, Store, is_error}
use comfyui_engine.Distributed.Placement.{Op, enqueues, claims, completes, cleans, purges}

-- The errors that are reported for a job.
abbrev pub error_count : {D : Type 0} → String → Op D → ℕ
error_count j (completes id result error) =
    if str_eq id j then (if is_error error then 1 else 0) else 0
error_count j (enqueues id payload config_meta priority) = 0
error_count j (claims worker) = 0
error_count j cleans = 0
error_count j (purges max_age) = 0

abbrev pub errors : {D : Type 0} → String → List (Op D × ℕ) → ℕ
errors j [] = 0
errors j ((op, now) ∷ ops) = error_count j op + errors j ops

-- The call does not draw the id for a new job.
abbrev pub Avoids : {D : Type 0} → String → Op D × ℕ → Type 0
Avoids j (enqueues id payload config_meta priority, now) = str_eq id j ≡ false
Avoids j (claims worker, now) = Unit
Avoids j (completes id result error, now) = Unit
Avoids j (cleans, now) = Unit
Avoids j (purges max_age, now) = Unit

-- What a job was enqueued with.
abbrev pub data_of : {D : Type 0} → Job D → D × D × ℕ
data_of job = (job.payload, job.config_meta, job.priority)

module _ {H Z D : Type 0} (redis : Redis H Z (Job D)) where
  -- The job is stored with its data and a number of retries.
  abbrev pub HasRetries : String → D × D × ℕ → ℕ → Store H Z → Type 0
  HasRetries j d n s =
      (job : Job D) × (redis.hget j s.jobs ≡ some job) × (job.retry_count ≡ n) × (data_of job ≡ d)
