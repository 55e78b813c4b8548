-- ===== src/Session/Resumption.antt =====
-- engine/session_manager.py: resumption, and the care of the directory of sessions.
use comfyui_engine.Prelude.{
  ℕ, ◌+◌, Option, none, some, List, [], ◌∷◌, String, length, drop, keep, count_if, str_eq,
  if◌then◌else◌, erase,
}
use comfyui_engine.Session.Files.{File, remove_file, newest_first, parsed}
use comfyui_engine.Session.Records.{
  Checkpoint, Manifest, Resume, is_completed, is_failed, is_pending, ids,
}
use comfyui_engine.Session.Manager.{Manager, load_session, get_latest_checkpoint}

-- The result of `get_resume_state` from a checkpoint.
unfoldable pub resume_from_checkpoint : {J : Type 0} → String → Checkpoint J → Resume J
resume_from_checkpoint id c = record {
  session_id = id;
  checkpoint_id = some c.checkpoint_id;
  pending_jobs = c.pending_jobs;
  completed_jobs = c.completed_jobs;
  failed_jobs = c.failed_jobs;
  config_snapshot = c.config_snapshot;
  resume_from_index = length c.completed_jobs + length c.failed_jobs;
}

module _ {J D : Type 0} where
  -- The result of `get_resume_state` from the manifest.
  unfoldable pub resume_from_manifest : (Manifest J D → J) → String → Manifest J D → Resume J
  unfolding is_completed is_failed is_pending ids
  resume_from_manifest asdict id s = record {
    session_id = id;
    checkpoint_id = none;
    pending_jobs = ids (keep is_pending s.jobs);
    completed_jobs = ids (keep is_completed s.jobs);
    failed_jobs = ids (keep is_failed s.jobs);
    config_snapshot = asdict s;
    resume_from_index = 0;
  }

  unfoldable pub resume_state :
      (Manifest J D → J)
      → String
      → Option (Manifest J D)
      → Option (Checkpoint J)
      → Option (Resume J)
  unfolding resume_from_checkpoint resume_from_manifest
  resume_state asdict id none latest = none
  resume_state asdict id (some s) none =
      if str_eq s.status "completed" then none else some (resume_from_manifest asdict id s)
  resume_state asdict id (some s) (some c) =
      if str_eq s.status "completed" then none else some (resume_from_checkpoint id c)

  -- `get_resume_state`: the manager after it, and the result.
  unfoldable pub get_resume_state :
      (Manifest J D → J) → String → Manager J D → Manager J D × Option (Resume J)
  unfolding load_session resume_state get_latest_checkpoint
  get_resume_state asdict id m = (
    (load_session id m).0,
    resume_state asdict id (load_session id m).1 (get_latest_checkpoint id (load_session id m).0),
  )

  -- One round of the loop of `cleanup_old_sessions`.
  unfoldable pub remove_completed : File (Manifest J D) → Manager J D → Manager J D
  unfolding erase remove_file
  remove_completed f m = elim f.content [
    | none ↦ m
    | some s ↦
        if str_eq s.status "completed"
        then record m {
          checkpoint_dirs = erase s.session_id m.checkpoint_dirs;
          session_files = remove_file f.name m.session_files;
        }
        else m
  ]

  unfoldable pub remove_all : List (File (Manifest J D)) → Manager J D → Manager J D
  unfolding remove_completed
  remove_all [] m = m
  remove_all (f ∷ fs) m = remove_all fs (remove_completed f m)

  unfoldable pub cleanup_old_sessions : ℕ → Manager J D → Manager J D
  unfolding remove_all newest_first
  cleanup_old_sessions keep_last m =
      remove_all (drop keep_last (newest_first (λ f. f.mtime) m.session_files)) m

pub record Stats : Type 0 where
  pub total_sessions : ℕ
  pub completed : ℕ
  pub running : ℕ
  pub failed : ℕ

unfoldable pub get_session_stats : {J D : Type 0} → Manager J D → Stats
unfolding parsed
get_session_stats m =
    let all = parsed m.session_files in
    record {
      total_sessions = length all;
      completed = count_if (λ s. str_eq s.status "completed") all;
      running = count_if (λ s. str_eq s.status "running") all;
      failed = count_if (λ s. str_eq s.status "failed") all;
    }

-- `__init__`, on directories that hold the files of a manager: a restart after a crash.
unfoldable pub restart : {J D : Type 0} → ℕ → Manager J D → Manager J D
restart interval m = record {
  checkpoint_interval = interval;
  current_session = none;
  current_checkpoint = none;
  jobs_since_checkpoint = 0;
  session_files = m.session_files;
  checkpoint_dirs = m.checkpoint_dirs;
}
