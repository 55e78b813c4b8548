-- ===== src/Session/Jobs.antt =====
-- engine/session_manager.py: the operations on the current session.
use comfyui_engine.Prelude.{ℕ, ◌+◌, none, some, [], ◌∷◌, ◌++◌, String, length, leb, if◌then◌else◌}
use comfyui_engine.Session.Records.{Job, Manifest, replace_job, update_counts}
use comfyui_engine.Session.Manager.{Manager, save_session, take_checkpoint}

module _ {J D : Type 0} where
  unfoldable pub append_job : ℕ → Job D → Manifest J D → Manifest J D
  unfolding update_counts
  append_job now job s =
      record (update_counts
        (record s { jobs = s.jobs ++ job ∷ []; total_jobs = length (s.jobs ++ job ∷ []) })) {
          updated_at = now;
        }

  -- The end of `add_job`, with the count of jobs that it has raised.
  unfoldable pub auto_checkpoint : (Manifest J D → J) → (ℕ → String) → ℕ → Manager J D → Manager J D
  unfolding take_checkpoint
  auto_checkpoint asdict chk_id now m =
      if leb m.checkpoint_interval m.jobs_since_checkpoint
      then record (take_checkpoint asdict chk_id now m) { jobs_since_checkpoint = 0 }
      else m

  unfoldable pub add_job : (Manifest J D → J) → (ℕ → String) → ℕ → Job D → Manager J D → Manager J D
  unfolding append_job auto_checkpoint
  add_job asdict chk_id now job m = elim m.current_session [
    | none ↦ m
    | some s ↦ auto_checkpoint asdict chk_id now (record m {
      current_session = some (append_job now job s);
      jobs_since_checkpoint = m.jobs_since_checkpoint + 1;
    })
  ]

  unfoldable pub update_job : ℕ → Job D → Manager J D → Manager J D
  unfolding update_counts replace_job
  update_job now job m = elim m.current_session [
    | none ↦ m
    | some s ↦ record m {
      current_session = some (record (update_counts (record s { jobs = replace_job job s.jobs })) {
        updated_at = now;
      });
    }
  ]

  unfoldable pub finalize_session : ℕ → String → Manager J D → Manager J D
  unfolding update_counts save_session
  finalize_session now status m = elim m.current_session [
    | none ↦ m
    | some s ↦
        (let s' = update_counts (record s { status = status; updated_at = now }) in
          save_session now s' (record m { current_session = some s' }))
  ]

  -- `_save_session(self._current_session)`
  unfoldable pub save_current : ℕ → Manager J D → Manager J D
  unfolding save_session
  save_current now m = elim m.current_session [ none ↦ m | some s ↦ save_session now s m ]

  unfoldable pub pause_session : (Manifest J D → J) → (ℕ → String) → ℕ → Manager J D → Manager J D
  unfolding take_checkpoint save_current
  pause_session asdict chk_id now m = elim m.current_session [
    | none ↦ m
    | some s ↦ save_current now (
        take_checkpoint asdict chk_id now
          (record m { current_session = some (record s { status = "paused"; updated_at = now }) }))
  ]
