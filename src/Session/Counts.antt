-- ===== src/Session/Counts.antt =====
-- The counts of a manifest, along any sequence of operations.
use comfyui_engine.Prelude.{
  ℕ, ◌+◌, ◌≡◌, refl, sym, ◌∙◌, inl, inr, true, false, none, some, List, [], ◌∷◌, ◌++◌, String,
  arith, length, count_if, eq_iff, pos, Option-cases,
}
use comfyui_engine.Session.Records.{
  Job, Manifest, is_completed, is_failed, is_pending, replace_job, update_counts,
}
use comfyui_engine.Session.Manager.{
  Manager, save_session, create_checkpoint, take_checkpoint, write_checkpoint, record_checkpoint,
}
use comfyui_engine.Session.Jobs.{
  append_job, auto_checkpoint, add_job, update_job, finalize_session, save_current, pause_session,
}

module _ {D : Type 0} where
  length-replace_job : (job : Job D) (js : List (Job D)) → length (replace_job job js) ≡ length js
  unfolding replace_job
  length-replace_job job [] = refl
  length-replace_job job (j ∷ js) = ground (arith, length-replace_job job js)

  -- A status is at most one of the two that count.
  pub disjoint : (j : Job D) → is_completed j ≡ true → is_failed j ≡ false
  unfolding is_completed is_failed
  disjoint j h =
      ground
        (arith, eq_iff j.status "completed", eq_iff j.status "error", eq_iff "completed" "error")

  counts-total :
      (js : List (Job D))
      → count_if is_completed js + count_if is_failed js + count_if is_pending js ≡ length js
  unfolding is_pending
  counts-total [] = refl
  counts-total (j ∷ js) = ground (arith, counts-total js, disjoint j)

module _ {J D : Type 0} where
  abbrev pub IsCounted : Manifest J D → Type 0
  IsCounted s =
      (s.total_jobs ≡ length s.jobs)
      × (s.completed_count ≡ count_if is_completed s.jobs)
      × (s.failed_count ≡ count_if is_failed s.jobs)
      × (s.pending_count ≡ pos (count_if is_pending s.jobs))

  update_counts-IsCounted :
      (s : Manifest J D) → s.total_jobs ≡ length s.jobs → IsCounted (update_counts s)
  unfolding update_counts
  update_counts-IsCounted s h = (h, refl, refl, ground (arith, h, counts-total s.jobs))

  append_job-IsCounted :
      (now : ℕ) (job : Job D) (s : Manifest J D) → IsCounted (append_job now job s)
  unfolding append_job
  append_job-IsCounted now job s =
      update_counts-IsCounted
        (record s { jobs = s.jobs ++ job ∷ []; total_jobs = length (s.jobs ++ job ∷ []) }) refl

  -- A session, if there is one, has the counts of its jobs.
  abbrev pub IsCountedCurrent : Manager J D → Type 0
  IsCountedCurrent m = elim m.current_session [ none ↦ Unit | some s ↦ IsCounted s ]

-- The calls that change the current session.
pub data Op (D : Type 0) : Type 0 where
  adds : Job D → Op D
  updates : Job D → Op D
  checkpoints_now : Op D
  finalizes : String → Op D
  pauses : Op D

module _ {J D : Type 0} (asdict : Manifest J D → J) (chk_id : ℕ → String) where
  unfoldable pub apply : Op D → ℕ → Manager J D → Manager J D
  apply (adds job) now m = add_job asdict chk_id now job m
  apply (updates job) now m = update_job now job m
  apply checkpoints_now now m = take_checkpoint asdict chk_id now m
  apply (finalizes status) now m = finalize_session now status m
  apply pauses now m = pause_session asdict chk_id now m

  -- Operations, each with its time.
  unfoldable pub run : List (Op D × ℕ) → Manager J D → Manager J D
  unfolding apply
  run [] m = m
  run ((op, now) ∷ ops) m = run ops (apply op now m)

  take_checkpoint-IsCounted :
      (now : ℕ) (m : Manager J D)
      → IsCountedCurrent m
      → IsCountedCurrent (take_checkpoint asdict chk_id now m)
  unfolding take_checkpoint create_checkpoint record_checkpoint save_session write_checkpoint
  take_checkpoint-IsCounted now m h = ground (arith, h)

  auto_checkpoint-IsCounted :
      (now : ℕ) (m : Manager J D)
      → IsCountedCurrent m
      → IsCountedCurrent (auto_checkpoint asdict chk_id now m)
  unfolding auto_checkpoint
  auto_checkpoint-IsCounted now m h = ground (arith, h, take_checkpoint-IsCounted now m h)

  add_job-IsCounted :
      (now : ℕ) (job : Job D) (m : Manager J D)
      → IsCountedCurrent m
      → IsCountedCurrent (add_job asdict chk_id now job m)
  unfolding add_job
  add_job-IsCounted now job m h = elim (Option-cases m.current_session) [
    | inl e ↦ rw (e, add_job) h
    | inr (s, e) ↦
        rw (e, add_job)
          (auto_checkpoint-IsCounted now
            (record m {
              current_session = some (append_job now job s);
              jobs_since_checkpoint = m.jobs_since_checkpoint + 1;
            })
            (append_job-IsCounted now job s))
  ]

  update_job-IsCounted :
      (now : ℕ) (job : Job D) (m : Manager J D)
      → IsCountedCurrent m
      → IsCountedCurrent (update_job now job m)
  unfolding update_job
  update_job-IsCounted now job m h = elim (Option-cases m.current_session) [
    | inl e ↦ rw (e, update_job) h
    | inr (s, e) ↦
        rw (e, update_job)
          (update_counts-IsCounted (record s { jobs = replace_job job s.jobs })
            ((rw e at h).0 ∙ sym (length-replace_job job s.jobs)))
  ]

  finalize_session-IsCounted :
      (now : ℕ) (status : String) (m : Manager J D)
      → IsCountedCurrent m
      → IsCountedCurrent (finalize_session now status m)
  unfolding finalize_session save_session
  finalize_session-IsCounted now status m h = elim (Option-cases m.current_session) [
    | inl e ↦ rw (e, finalize_session) h
    | inr (s, e) ↦
        rw (e, finalize_session)
          (update_counts-IsCounted (record s { status = status; updated_at = now }) (rw e at h).0)
  ]

  save_current-IsCounted :
      (now : ℕ) (m : Manager J D) → IsCountedCurrent m → IsCountedCurrent (save_current now m)
  unfolding save_current save_session
  save_current-IsCounted now m h = ground (arith, h)

  pause_session-IsCounted :
      (now : ℕ) (m : Manager J D)
      → IsCountedCurrent m
      → IsCountedCurrent (pause_session asdict chk_id now m)
  unfolding pause_session
  pause_session-IsCounted now m h = elim (Option-cases m.current_session) [
    | inl e ↦ rw (e, pause_session) h
    | inr (s, e) ↦
        (let paused = record m {
          current_session = some (record s { status = "paused"; updated_at = now });
        } in
          rw (e, pause_session)
            (save_current-IsCounted now (take_checkpoint asdict chk_id now paused)
              (take_checkpoint-IsCounted now paused (rw e at h))))
  ]

  apply-IsCounted :
      (op : Op D) (now : ℕ) (m : Manager J D)
      → IsCountedCurrent m
      → IsCountedCurrent (apply op now m)
  unfolding apply
  apply-IsCounted (adds job) now m h = add_job-IsCounted now job m h
  apply-IsCounted (updates job) now m h = update_job-IsCounted now job m h
  apply-IsCounted checkpoints_now now m h = take_checkpoint-IsCounted now m h
  apply-IsCounted (finalizes status) now m h = finalize_session-IsCounted now status m h
  apply-IsCounted pauses now m h = pause_session-IsCounted now m h

  -- Along any sequence of added and updated jobs, checkpoints, pauses and finalizations, whatever
  -- the statuses of the jobs, the total of the current session stays the number of its jobs, and
  -- the three counts stay the numbers of its jobs that are completed, that have the status "error",
  -- and that have neither, if this held at the start.
  pub run-IsCounted :
      (ops : List (Op D × ℕ)) (m : Manager J D) → IsCountedCurrent m → IsCountedCurrent (run ops m)
  unfolding run
  run-IsCounted [] m h = h
  run-IsCounted ((op, now) ∷ ops) m h =
      run-IsCounted ops (apply op now m) (apply-IsCounted op now m h)
