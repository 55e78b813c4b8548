-- ===== src/Session/Manager.antt =====
-- engine/session_manager.py: the manager, its directories, and checkpoints.
use comfyui_engine.Prelude.{
  ℕ, Bool, ◌||◌, Option, none, some, List, [], ◌∷◌, ◌++◌, String, keep, str_eq, pos, Dict, lookup,
  insert,
}
use comfyui_engine.Session.Files.{File, write_file, read_file, newest_first, parsed, newest}
use comfyui_engine.Session.Records.{
  Checkpoint, Manifest, is_completed, is_failed, is_pending, ids, choose_id,
}

pub record Manager (J D : Type 0) : Type 0 where
  pub checkpoint_interval : ℕ
  pub current_session : Option (Manifest J D)
  pub current_checkpoint : Option (Checkpoint J)
  pub jobs_since_checkpoint : ℕ
  pub session_files : List (File (Manifest J D))
  pub checkpoint_dirs : Dict (List (File (Checkpoint J)))

module _ {J D : Type 0} where
  unfoldable pub save_session : ℕ → Manifest J D → Manager J D → Manager J D
  unfolding write_file
  save_session now s m = record m { session_files = write_file s.session_id now s m.session_files }

  -- `create_session`, of the hashes that are "" where no configuration or workflow is given.
  unfoldable pub create_session :
      ℕ → String → Option String → ℕ → String → String → Manager J D → Manager J D
  unfolding save_session choose_id
  create_session now fallback id total config_hash workflow_hash m =
      let s : Manifest J D = record {
        session_id = choose_id id fallback;
        created_at = now;
        updated_at = now;
        status = "running";
        total_jobs = total;
        completed_count = 0;
        failed_count = 0;
        pending_count = pos 0;
        jobs = [];
        checkpoints = [];
        config_hash = config_hash;
        workflow_hash = workflow_hash;
      } in
      save_session now s (record m { current_session = some s })

  -- `load_session`: the manager after it, and the result.
  unfoldable pub load_session : String → Manager J D → Manager J D × Option (Manifest J D)
  unfolding read_file
  load_session id m = elim (read_file id m.session_files) [
    | none ↦ (m, none)
    | some s ↦ (record m { current_session = some s }, some s)
  ]

  unfoldable pub is_incomplete : Manifest J D → Bool
  is_incomplete s = str_eq s.status "running" || str_eq s.status "paused"

  unfoldable pub find_incomplete_sessions : Manager J D → List (Manifest J D)
  unfolding newest_first parsed is_incomplete
  find_incomplete_sessions m =
      newest_first (λ s. s.updated_at) (keep is_incomplete (parsed m.session_files))

  -- The directory of a session's checkpoints; a missing one counts as empty.
  unfoldable pub checkpoint_files : String → Manager J D → List (File (Checkpoint J))
  unfolding lookup
  checkpoint_files id m = elim (lookup id m.checkpoint_dirs) [ none ↦ [] | some fs ↦ fs ]

  -- `_checkpoint_path` makes the directory if it is missing.
  unfoldable pub checkpoint_path : String → Manager J D → Manager J D
  unfolding checkpoint_files insert
  checkpoint_path id m = record m {
    checkpoint_dirs = insert id (checkpoint_files id m) m.checkpoint_dirs;
  }

  unfoldable pub load_checkpoint :
      String → String → Manager J D → Manager J D × Option (Checkpoint J)
  unfolding checkpoint_path read_file
  load_checkpoint id chk m = (checkpoint_path id m, read_file chk (checkpoint_files id m))

  unfoldable pub get_latest_checkpoint : String → Manager J D → Option (Checkpoint J)
  unfolding newest newest_first checkpoint_files
  get_latest_checkpoint id m = newest (newest_first (λ f. f.mtime) (checkpoint_files id m))

  -- The checkpoint that `create_checkpoint` builds.
  unfoldable pub snapshot : (Manifest J D → J) → (ℕ → String) → ℕ → Manifest J D → Checkpoint J
  unfolding is_completed is_failed is_pending ids
  snapshot asdict chk_id now s = record {
    checkpoint_id = chk_id now;
    timestamp = now;
    batch_index = s.completed_count;
    total_batches = s.total_jobs;
    completed_jobs = ids (keep is_completed s.jobs);
    failed_jobs = ids (keep is_failed s.jobs);
    pending_jobs = ids (keep is_pending s.jobs);
    config_snapshot = asdict s;
  }

  unfoldable pub write_checkpoint : ℕ → String → Checkpoint J → Manager J D → Manager J D
  unfolding write_file checkpoint_files insert
  write_checkpoint now id c m = record m {
    checkpoint_dirs =
        insert id (write_file c.checkpoint_id now c (checkpoint_files id m)) m.checkpoint_dirs;
  }

  unfoldable pub record_checkpoint : ℕ → Checkpoint J → Manifest J D → Manager J D → Manager J D
  unfolding save_session
  record_checkpoint now c s m =
      let s' : Manifest J D = record s { checkpoints = s.checkpoints ++ c ∷ [] } in
      save_session now s' (record m { current_session = some s'; current_checkpoint = some c })

  -- `create_checkpoint`; none stands for the error that there is no session.
  unfoldable pub create_checkpoint :
      (Manifest J D → J) → (ℕ → String) → ℕ → Manager J D → Option (Manager J D × Checkpoint J)
  unfolding snapshot write_checkpoint record_checkpoint
  create_checkpoint asdict chk_id now m = elim m.current_session [
    | none ↦ none
    | some s ↦
        (let c = snapshot asdict chk_id now s in
          some (record_checkpoint now c s (write_checkpoint now s.session_id c m), c))
  ]

  -- A call of `create_checkpoint` whose result is not used; the callers have a session.
  unfoldable pub take_checkpoint : (Manifest J D → J) → (ℕ → String) → ℕ → Manager J D → Manager J D
  unfolding create_checkpoint
  take_checkpoint asdict chk_id now m = elim (create_checkpoint asdict chk_id now m) [
    | none ↦ m
    | some r ↦ r.0
  ]
