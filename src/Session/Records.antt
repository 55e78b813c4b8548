-- ===== src/Session/Records.antt =====
-- engine/session_manager.py: jobs, checkpoints and manifests, and the counts of a manifest.
use comfyui_engine.Prelude.{
  ℕ, ◌+◌, Bool, not, ◌||◌, Option, none, some, List, [], ◌∷◌, map, String, count_if, str_eq,
  if◌then◌else◌, ℤ, sub_ℕ,
}

pub record Job (D : Type 0) : Type 0 where
  pub job_id : String
  pub status : String
  pub body : D

pub record Checkpoint (J : Type 0) : Type 0 where
  pub checkpoint_id : String
  pub timestamp : ℕ
  pub batch_index : ℕ
  pub total_batches : ℕ
  pub completed_jobs : List String
  pub failed_jobs : List String
  pub pending_jobs : List String
  pub config_snapshot : J

pub record Manifest (J D : Type 0) : Type 0 where
  pub session_id : String
  pub created_at : ℕ
  pub updated_at : ℕ
  pub status : String
  pub total_jobs : ℕ
  pub completed_count : ℕ
  pub failed_count : ℕ
  pub pending_count : ℤ
  pub jobs : List (Job D)
  pub checkpoints : List (Checkpoint J)
  pub config_hash : String
  pub workflow_hash : String

pub record Resume (J : Type 0) : Type 0 where
  pub session_id : String
  pub checkpoint_id : Option String
  pub pending_jobs : List String
  pub completed_jobs : List String
  pub failed_jobs : List String
  pub config_snapshot : J
  pub resume_from_index : ℕ

module _ {D : Type 0} where
  unfoldable pub is_completed : Job D → Bool
  is_completed j = str_eq j.status "completed"

  unfoldable pub is_failed : Job D → Bool
  is_failed j = str_eq j.status "error"

  unfoldable pub is_pending : Job D → Bool
  unfolding is_completed is_failed
  is_pending j = not (is_completed j || is_failed j)

  unfoldable pub ids : List (Job D) → List String
  ids js = map (λ j. j.job_id) js

  -- The loop of `update_job`: the first job with the id is replaced.
  unfoldable pub replace_job : Job D → List (Job D) → List (Job D)
  replace_job job [] = []
  replace_job job (j ∷ js) =
      let rest = replace_job job js in if str_eq j.job_id job.job_id then job ∷ js else j ∷ rest

-- `session_id or f"session_{...}"`, where `fallback` is the formatted string.
unfoldable pub choose_id : Option String → String → String
choose_id none fallback = fallback
choose_id (some id) fallback = if str_eq id "" then fallback else id

module _ {J D : Type 0} where
  unfoldable pub update_counts : Manifest J D → Manifest J D
  unfolding is_completed is_failed
  update_counts s = record s {
    completed_count = count_if is_completed s.jobs;
    failed_count = count_if is_failed s.jobs;
    pending_count = sub_ℕ s.total_jobs (count_if is_completed s.jobs + count_if is_failed s.jobs);
  }
