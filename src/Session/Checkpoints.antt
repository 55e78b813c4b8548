-- ===== src/Session/Checkpoints.antt =====
-- What a checkpoint holds, and how often `add_job` takes one.
use comfyui_engine.Prelude.{
  ℕ, ◌+◌, ◌*◌, ◌<◌, ◌≡◌, refl, inl, inr, true, none, some, List, [], ◌∷◌, ◌++◌, String, arith,
  length, keep, count_if, leb, str_eq, length-append, Bool-cases, Option-cases,
}
use comfyui_engine.Session.Records.{
  Job, Manifest, is_completed, is_failed, is_pending, ids, update_counts,
}
use comfyui_engine.Session.Manager.{
  Manager, save_session, snapshot, create_checkpoint, take_checkpoint, write_checkpoint,
  record_checkpoint,
}
use comfyui_engine.Session.Counts.{disjoint}
use comfyui_engine.Session.Jobs.{append_job, auto_checkpoint, add_job}

module _ {D : Type 0} where
  partition :
      (id : String) (js : List (Job D))
      → count_if (str_eq id) (ids (keep is_completed js))
          + count_if (str_eq id) (ids (keep is_failed js))
          + count_if (str_eq id) (ids (keep is_pending js))
        ≡ count_if (str_eq id) (ids js)
  unfolding ids is_pending
  partition id [] = refl
  partition id (j ∷ js) = ground (arith, partition id js, disjoint j)

full_interval :
    {A B : Type 0} (js : List A) (job : A) (cs : List B) (c : B) (interval since : ℕ)
    → (since < interval) × (length js ≡ interval * length cs + since)
    → leb interval (since + 1) ≡ true
    → length (js ++ job ∷ []) ≡ interval * length (cs ++ c ∷ []) + 0
full_interval js job cs c interval since h full =
    rw (length-append js (job ∷ []), length-append cs (c ∷ [])) (ground (arith, h, full))

module _ {J D : Type 0} where
  -- A checkpoint loses no job and lists none twice: every job id occurs in its completed, failed
  -- and pending jobs together as often as among the jobs of the session.
  snapshot-partition :
      (asdict : Manifest J D → J) (chk_id : ℕ → String) (now : ℕ) (s : Manifest J D) (id : String)
      → count_if (str_eq id) (snapshot asdict chk_id now s).completed_jobs
          + count_if (str_eq id) (snapshot asdict chk_id now s).failed_jobs
          + count_if (str_eq id) (snapshot asdict chk_id now s).pending_jobs
        ≡ count_if (str_eq id) (ids s.jobs)
  unfolding snapshot
  snapshot-partition asdict chk_id now s id = partition id s.jobs

  -- There are as many checkpoints as full intervals of jobs, and the manager has counted the rest.
  abbrev pub IsPaced : Manager J D → Type 0
  IsPaced m = elim m.current_session [
    | none ↦ Unit
    | some s ↦
        (m.jobs_since_checkpoint < m.checkpoint_interval)
        × (length s.jobs ≡ m.checkpoint_interval * length s.checkpoints + m.jobs_since_checkpoint)
  ]

  module _ (asdict : Manifest J D → J) (chk_id : ℕ → String) where
    -- Jobs added one after the other, each with its time.
    unfoldable pub add_jobs : List (Job D × ℕ) → Manager J D → Manager J D
    add_jobs [] m = m
    add_jobs ((job, now) ∷ js) m = add_jobs js (add_job asdict chk_id now job m)

    add_job-IsPaced :
        (now : ℕ) (job : Job D) (m : Manager J D)
        → IsPaced m
        → IsPaced (add_job asdict chk_id now job m)
    unfolding add_job append_job auto_checkpoint take_checkpoint create_checkpoint record_checkpoint
        save_session write_checkpoint update_counts
    add_job-IsPaced now job m h = elim (Option-cases m.current_session) [
      | inl e ↦ rw (e, add_job) h
      | inr (s, e) ↦ elim (Bool-cases (leb m.checkpoint_interval (m.jobs_since_checkpoint + 1))) [
        | inl full ↦
            rw (e, add_job, full)
              (
                ground (arith, (rw e at h).0),
                full_interval s.jobs job s.checkpoints
                    (snapshot asdict chk_id now (append_job now job s)) m.checkpoint_interval
                    m.jobs_since_checkpoint (rw e at h) full,
              )
        | inr room ↦
            rw (e, add_job, room)
              (ground (arith, room), ground (arith, (rw e at h).1, length-append s.jobs (job ∷ [])))
      ]
    ]

    -- While jobs are added, a checkpoint is taken after every `checkpoint_interval` of them: the
    -- number of jobs of the session stays the interval times the number of its checkpoints, plus
    -- the jobs counted since the last, which are fewer than the interval, if this held at the
    -- start.
    add_jobs-IsPaced :
        (js : List (Job D × ℕ)) (m : Manager J D) → IsPaced m → IsPaced (add_jobs js m)
    unfolding add_jobs
    add_jobs-IsPaced [] m h = h
    add_jobs-IsPaced ((job, now) ∷ js) m h =
        add_jobs-IsPaced js (add_job asdict chk_id now job m) (add_job-IsPaced now job m h)
