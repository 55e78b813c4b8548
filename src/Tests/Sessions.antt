-- ===== src/Tests/Sessions.antt =====
-- Tests and instances for engine/session_manager.py.
use comfyui_engine.Prelude.{ℕ, ◌≡◌, refl, none, some, List, [], ◌∷◌, String, pos}
use comfyui_engine.Session.Records.{Job, Manifest, is_completed, is_failed, is_pending, ids}
use comfyui_engine.Session.Manager.{Manager, create_session, checkpoint_files}
use comfyui_engine.Session.Jobs.{pause_session}
use comfyui_engine.Session.Resumption.{get_resume_state, restart}
use comfyui_engine.Session.Counts.{IsCountedCurrent, adds, updates, pauses, run, run-IsCounted}
use comfyui_engine.Session.Recovery.{resume_after_pause, update_jobs, restart-update_jobs}

abbrev job : String → String → Job ℕ
job id status = record { job_id = id; status = status; body = 0 }

-- Plain data is the list of the job ids here.
abbrev plain : Manifest (List String) ℕ → List String
plain s = ids s.jobs

abbrev chk : ℕ → String
chk now = "chk"

abbrev blank : Manager (List String) ℕ
blank = record {
  checkpoint_interval = 2;
  current_session = none;
  current_checkpoint = none;
  jobs_since_checkpoint = 0;
  session_files = [];
  checkpoint_dirs = [];
}

abbrev manifest : Manifest (List String) ℕ
manifest = record {
  session_id = "s";
  created_at = 1;
  updated_at = 1;
  status = "running";
  total_jobs = 2;
  completed_count = 1;
  failed_count = 0;
  pending_count = pos 1;
  jobs = job "a" "completed" ∷ job "b" "queued" ∷ [];
  checkpoints = [];
  config_hash = "";
  workflow_hash = "";
}

abbrev working : Manager (List String) ℕ
working = record blank { current_session = some manifest }

abbrev fresh : Manager (List String) ℕ
fresh = record working {
  current_session = some (record manifest { jobs = []; total_jobs = 0; completed_count = 0 });
}

abbrev stored : Manager (List String) ℕ
stored = record working {
  session_files = record { name = "s"; mtime = 4; content = some manifest } ∷ [];
}

default_id_is_formatted :
    (create_session 7 "session_7" none 0 "" "" blank).session_files
    ≡ (create_session 7 "x" (some "session_7") 0 "" "" blank).session_files
unfolding create_session
default_id_is_formatted = refl

run-IsCounted_example : IsCountedCurrent (
    run plain chk
      ((adds (job "c" "error"), 5) ∷ (updates (job "b" "completed"), 6) ∷ (pauses, 7) ∷ [])
      working)
unfolding is_completed is_failed is_pending
run-IsCounted_example =
    run-IsCounted plain chk
      ((adds (job "c" "error"), 5) ∷ (updates (job "b" "completed"), 6) ∷ (pauses, 7) ∷ []) working
      (refl, refl, refl, refl)

abbrev mixed : Manifest (List String) ℕ
mixed = record manifest {
  jobs = job "a" "completed" ∷ job "b" "queued" ∷ job "c" "error" ∷ job "d" "completed" ∷ [];
}

resume_after_pause_example :
    (get_resume_state plain "s"
      (restart 5 (pause_session plain chk 9 (record working { current_session = some mixed })))).1
    ≡ some (record {
      session_id = "s";
      checkpoint_id = some (chk 9);
      pending_jobs = "b" ∷ [];
      completed_jobs = "a" ∷ "d" ∷ [];
      failed_jobs = "c" ∷ [];
      config_snapshot = plain (record mixed { status = "paused"; updated_at = 9 });
      resume_from_index = 3;
    })
unfolding checkpoint_files
resume_after_pause_example =
    resume_after_pause plain chk 5 9 (record working { current_session = some mixed }) mixed refl tt

restart-update_jobs_example :
    restart 5 (update_jobs ((job "b" "completed", 8) ∷ []) stored) ≡ restart 5 stored
restart-update_jobs_example = restart-update_jobs 5 ((job "b" "completed", 8) ∷ []) stored
