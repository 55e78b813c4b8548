-- ===== src/Session/Cleanup.antt =====
-- What `cleanup_old_sessions` leaves in the directory of sessions.
use comfyui_engine.Prelude.{
  ℕ, zero, suc, ◌≡◌, refl, ◌∙◌, Bool, true, false, none, some, List, [], ◌∷◌, String, arith, drop,
  keep, str_eq, eq_iff, All,
}
use comfyui_engine.Session.Files.{File, remove_file, newest_first}
use comfyui_engine.Session.Records.{Manifest}
use comfyui_engine.Session.Manager.{Manager}
use comfyui_engine.Session.Resumption.{remove_completed, remove_all, cleanup_old_sessions}
use comfyui_engine.Session.Recovery.{newest_first-All}

module _ {J D : Type 0} where
  unfoldable pub is_done : File (Manifest J D) → Bool
  is_done f = elim f.content [ none ↦ false | some s ↦ str_eq s.status "completed" ]

  -- A file of the name holds no completed session.
  abbrev pub IsKept : String → File (Manifest J D) → Type 0
  IsKept n f = str_eq f.name n ≡ true → is_done f ≡ false

  -- The files of a name.
  unfoldable pub named : String → List (File (Manifest J D)) → List (File (Manifest J D))
  named n fs = keep (λ f. str_eq f.name n) fs

  named-remove_file :
      (n name : String) (fs : List (File (Manifest J D)))
      → str_eq name n ≡ false
      → named n (remove_file name fs) ≡ named n fs
  unfolding named remove_file
  named-remove_file n name [] h = refl
  named-remove_file n name (f ∷ fs) h =
      ground (arith, h, named-remove_file n name fs h, eq_iff f.name name, eq_iff f.name n)

  named-remove_completed :
      (n : String) (f : File (Manifest J D)) (m : Manager J D)
      → IsKept n f
      → named n (remove_completed f m).session_files ≡ named n m.session_files
  unfolding remove_completed is_done
  named-remove_completed n f m h = ground (arith, h, named-remove_file n f.name m.session_files)

  named-remove_all :
      (n : String) (fs : List (File (Manifest J D))) (m : Manager J D)
      → All (IsKept n) fs
      → named n (remove_all fs m).session_files ≡ named n m.session_files
  unfolding remove_all
  named-remove_all n [] m h = refl
  named-remove_all n (f ∷ fs) m h =
      named-remove_all n fs (remove_completed f m) h.1 ∙ named-remove_completed n f m h.0

  drop-All :
      (P : File (Manifest J D) → Type 0) (k : ℕ) (fs : List (File (Manifest J D)))
      → All P fs
      → All P (drop k fs)
  drop-All P zero fs h = h
  drop-All P (suc k) [] h = tt
  drop-All P (suc k) (f ∷ fs) h = drop-All P k fs h.1

  -- `cleanup_old_sessions` removes no file of a session that is not completed, nor one that it
  -- cannot parse, however old it is: where no file of a name holds a completed session, the files
  -- of that name are afterwards what they were.
  pub cleanup-keeps_unfinished :
      (keep_last : ℕ) (m : Manager J D) (n : String)
      → All (IsKept n) m.session_files
      → named n (cleanup_old_sessions keep_last m).session_files ≡ named n m.session_files
  unfolding cleanup_old_sessions
  cleanup-keeps_unfinished keep_last m n h =
      named-remove_all n (drop keep_last (newest_first (λ f. f.mtime) m.session_files)) m (
        drop-All (IsKept n) keep_last (newest_first (λ f. f.mtime) m.session_files)
          (newest_first-All (IsKept n) (λ f. f.mtime) m.session_files h))
