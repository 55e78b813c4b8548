-- ===== src/Session/Recovery.antt =====
-- What a new manager resumes from the files that an earlier one left.
use comfyui_engine.Prelude.{
  ℕ, ◌+◌, ◌<◌, not, ◌||◌, Bool, map, keep, length, ◌≡◌, refl, ap, ◌∙◌, inl, inr, false, some, List,
  [], ◌∷◌, ◌++◌, String, arith, leb, str_eq, Dict, insert, lookup-insert, All, Bool-cases,
  Option-cases,
}
use comfyui_engine.Session.Files.{
  File, remove_file, write_file, read_file, insert_newest, newest_first, newest,
}
use comfyui_engine.Session.Records.{
  Job, Checkpoint, Manifest, is_completed, is_failed, is_pending, ids,
}
use comfyui_engine.Session.Manager.{
  Manager, save_session, load_session, checkpoint_files, get_latest_checkpoint, snapshot,
  create_checkpoint, take_checkpoint, write_checkpoint, record_checkpoint,
}
use comfyui_engine.Session.Jobs.{update_job, save_current, pause_session}
use comfyui_engine.Session.Resumption.{
  resume_from_checkpoint, resume_state, get_resume_state, restart,
}
use text.Mathlib.TextPositions.{eq_refl}

module _ {A : Type 0} where
  remove_file-All :
      (P : File A → Type 0) (name : String) (fs : List (File A))
      → All P fs
      → All P (remove_file name fs)
  unfolding remove_file
  remove_file-All P name [] h = tt
  remove_file-All P name (f ∷ fs) h = elim (Bool-cases (str_eq f.name name)) [
    | inl e ↦ rw e (remove_file-All P name fs h.1)
    | inr e ↦ rw e (h.0, remove_file-All P name fs h.1)
  ]

  pub insert_newest-All :
      (P : A → Type 0) (key : A → ℕ) (x : A) (ys : List A)
      → P x
      → All P ys
      → All P (insert_newest key x ys)
  unfolding insert_newest
  insert_newest-All P key x [] p h = (p, tt)
  insert_newest-All P key x (y ∷ ys) p h = elim (Bool-cases (leb (key y) (key x))) [
    | inl e ↦ rw e (p, h)
    | inr e ↦ rw e (h.0, insert_newest-All P key x ys p h.1)
  ]

  pub newest_first-All :
      (P : A → Type 0) (key : A → ℕ) (xs : List A) → All P xs → All P (newest_first key xs)
  unfolding newest_first
  newest_first-All P key [] h = tt
  newest_first-All P key (x ∷ xs) h =
      insert_newest-All P key x (newest_first key xs) h.0 (newest_first-All P key xs h.1)

  insert_newest-head :
      (key : A → ℕ) (x : A) (ys : List A)
      → All (λ y. key y < key x) ys
      → insert_newest key x ys ≡ x ∷ ys
  unfolding insert_newest
  insert_newest-head key x [] h = refl
  insert_newest-head key x (y ∷ ys) h = ground (arith, h.0)

module _ {A : Type 0} where
  -- The file just written is the newest where all others are older.
  newest-write_file :
      (name : String) (now : ℕ) (a : A) (fs : List (File A))
      → All (λ f. f.mtime < now) fs
      → newest (newest_first (λ f. f.mtime) (write_file name now a fs)) ≡ some a
  unfolding write_file newest_first newest
  newest-write_file name now a fs h = ap newest (
      insert_newest-head (λ (f : File A). f.mtime)
        (record { name = name; mtime = now; content = some a })
        (newest_first (λ f. f.mtime) (remove_file name fs))
        (newest_first-All (λ f. f.mtime < now) (λ f. f.mtime) (remove_file name fs)
          (remove_file-All (λ f. f.mtime < now) name fs h)))

  read_file-write_file :
      (name : String) (now : ℕ) (a : A) (fs : List (File A))
      → read_file name (write_file name now a fs) ≡ some a
  unfolding read_file write_file
  read_file-write_file name now a fs = rw (eq_refl name) refl

module _ {J D : Type 0} where
  checkpoint_files_of_insert :
      (id : String) (fs : List (File (Checkpoint J))) (dirs : Dict (List (File (Checkpoint J))))
      (m : Manager J D)
      → m.checkpoint_dirs ≡ insert id fs dirs
      → checkpoint_files id m ≡ fs
  unfolding checkpoint_files
  checkpoint_files_of_insert id fs dirs m e =
      rw (checkpoint_files, e, lookup-insert id id fs dirs, eq_refl id) refl

module _ {J D : Type 0} (asdict : Manifest J D → J) (chk_id : ℕ → String) where
  -- The manifest that `pause_session` checkpoints.
  abbrev pub paused : ℕ → Manifest J D → Manifest J D
  paused now s = record s { status = "paused"; updated_at = now }

  resume_of_files :
      (id : String) (m : Manager J D) (s : Manifest J D) (c : Checkpoint J)
      → read_file id m.session_files ≡ some s
      → str_eq s.status "completed" ≡ false
      → newest (newest_first (λ f. f.mtime) (checkpoint_files id m)) ≡ some c
      → (get_resume_state asdict id m).1 ≡ some (resume_from_checkpoint id c)
  unfolding get_resume_state load_session get_latest_checkpoint resume_state checkpoint_files
  resume_of_files id m s c found unfinished latest =
      rw
        (
          get_resume_state, load_session, found, resume_state, get_latest_checkpoint, latest,
          unfinished,
        )
        refl

  -- The ids of the jobs whose status passes a test, in the order of the session.
  abbrev pub ids_where : (String → Bool) → Manifest J D → List String
  ids_where f s = map (λ j. j.job_id) (keep (λ j. f j.status) s.jobs)

  -- A session that is paused can be resumed: if all files of its checkpoints were written before
  -- (by their times), a manager that is started anew on the directories resumes it from the
  -- checkpoint of the pause, with the jobs whose status is "completed" as completed, those with
  -- "error" as failed, all others as pending, each in the order of the session, from the index after
  -- the completed and the failed ones, and with the manifest of that moment.
  pub resume_after_pause :
      (interval now : ℕ) (m : Manager J D) (s : Manifest J D)
      → m.current_session ≡ some s
      → All (λ f. f.mtime < now) (checkpoint_files s.session_id m)
      → (get_resume_state asdict s.session_id
          (restart interval (pause_session asdict chk_id now m))).1
        ≡ some (record {
          session_id = s.session_id;
          checkpoint_id = some (chk_id now);
          pending_jobs = ids_where (λ st. not (str_eq st "completed" || str_eq st "error")) s;
          completed_jobs = ids_where (λ st. str_eq st "completed") s;
          failed_jobs = ids_where (λ st. str_eq st "error") s;
          config_snapshot = asdict (record s { status = "paused"; updated_at = now });
          resume_from_index =
              length (ids_where (λ st. str_eq st "completed") s)
              + length (ids_where (λ st. str_eq st "error") s);
        })
  unfolding snapshot resume_from_checkpoint is_completed is_failed is_pending ids pause_session
      take_checkpoint create_checkpoint record_checkpoint save_session save_current write_checkpoint
      restart checkpoint_files
  resume_after_pause interval now m s e older =
      let c = snapshot asdict chk_id now (paused now s) in
      let saved : Manifest J D = record (paused now s) { checkpoints = s.checkpoints ++ c ∷ [] } in
      resume_of_files s.session_id (restart interval (pause_session asdict chk_id now m)) saved c
        (rw (e, pause_session)
          (read_file-write_file s.session_id now saved
            (write_file s.session_id now saved m.session_files)))
        refl
        (ap (λ fs. newest (newest_first (λ f. f.mtime) fs))
            (checkpoint_files_of_insert s.session_id
              (write_file (chk_id now) now c (checkpoint_files s.session_id m)) m.checkpoint_dirs
              (restart interval (pause_session asdict chk_id now m)) (rw (e, pause_session) refl))
          ∙ newest-write_file (chk_id now) now c (checkpoint_files s.session_id m) older)

module _ {J D : Type 0} where
  -- Updates of jobs, each with its time.
  unfoldable pub update_jobs : List (Job D × ℕ) → Manager J D → Manager J D
  update_jobs [] m = m
  update_jobs ((job, now) ∷ js) m = update_jobs js (update_job now job m)

  restart-update_job :
      (interval now : ℕ) (job : Job D) (m : Manager J D)
      → restart interval (update_job now job m) ≡ restart interval m
  unfolding restart update_job
  restart-update_job interval now job m = elim (Option-cases m.current_session) [
    | inl e ↦ rw (e, update_job) refl
    | inr (s, e) ↦ rw (e, update_job) refl
  ]

  -- No update of a job reaches the directories: after any updates, a manager that is started anew
  -- is the same, and so resumes the same jobs, as if no job had been updated.
  pub restart-update_jobs :
      (interval : ℕ) (js : List (Job D × ℕ)) (m : Manager J D)
      → restart interval (update_jobs js m) ≡ restart interval m
  unfolding update_jobs
  restart-update_jobs interval [] m = refl
  restart-update_jobs interval ((job, now) ∷ js) m =
      restart-update_jobs interval js (update_job now job m) ∙ restart-update_job interval now job m
