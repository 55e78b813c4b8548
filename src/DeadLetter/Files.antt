-- ===== src/DeadLetter/Files.antt =====
-- The files of the directory against the entries in memory.
use comfyui_engine.Prelude.{
  ◌+◌, ◌<◌, ◌≡◌, ◌≢◌, refl, inl, inr, true, none, some, List, [], ◌∷◌, ◌++◌, String, arith, length,
  length-append, ap, ltb, str_eq, eq_iff, Bool-cases, if◌then◌else◌,
}
use comfyui_engine.DeadLetter.{
  Entry, Disk, Queue, remove_persisted, persist_entry, read_file, enforce_limit, add, find_entry,
  get_entry,
}

module _ {P M : Type 0} where
  pub read_file-remove_persisted :
      (i j : String) (files : Disk P M)
      → read_file j (remove_persisted i files) ≡ (if str_eq i j then none else read_file j files)
  unfolding read_file remove_persisted
  read_file-remove_persisted i j [] = ground arith
  read_file-remove_persisted i j ((name, e) ∷ files) =
      ground (arith, read_file-remove_persisted i j files, eq_iff name i, eq_iff name j, eq_iff i j)

  read_file-persist_entry :
      (e : Entry P M) (j : String) (files : Disk P M)
      → read_file j (persist_entry e files)
        ≡ (if str_eq e.job_id j then some e else read_file j files)
  unfolding read_file persist_entry
  read_file-persist_entry e j files = ground (arith, read_file-remove_persisted e.job_id j files)

  find_entry-append_one :
      (j : String) (es : List (Entry P M)) (e : Entry P M)
      → find_entry e.job_id es ≡ none
      → find_entry j (es ++ e ∷ []) ≡ (if str_eq e.job_id j then some e else find_entry j es)
  unfolding find_entry
  find_entry-append_one j [] e fresh = refl
  find_entry-append_one j (x ∷ es) e fresh = ground (
    arith,
    find_entry-append_one j es e,
    eq_iff x.job_id j,
    eq_iff e.job_id j,
    eq_iff x.job_id e.job_id,
  )

  -- No two entries have the same job id.
  abbrev pub IsDistinct : List (Entry P M) → Type 0
  IsDistinct [] = Unit
  IsDistinct (e ∷ es) = (find_entry e.job_id es ≡ none) × IsDistinct es

  -- The job ids are distinct, and the directory holds under each id the entry in memory, if there
  -- is one, and nothing else.
  pub record IsMirrored (q : Queue P M) : Type 0 where
    pub distinct : IsDistinct q.entries
    pub mirror : (id : String) → read_file id q.disk ≡ find_entry id q.entries

  append_one-IsDistinct :
      (es : List (Entry P M)) (e : Entry P M)
      → find_entry e.job_id es ≡ none
      → IsDistinct es
      → IsDistinct (es ++ e ∷ [])
  unfolding find_entry
  append_one-IsDistinct [] e fresh d = (refl, tt)
  append_one-IsDistinct (x ∷ es) e fresh d = (
    ground (
      arith,
      find_entry-append_one x.job_id es e,
      d.0,
      eq_iff x.job_id e.job_id,
      eq_iff e.job_id x.job_id,
    ),
    append_one-IsDistinct es e (ground arith) d.1,
  )

  -- Popping the oldest entry and unlinking its file keep the mirror.
  enforce_limit-IsMirrored :
      (es : List (Entry P M)) (q : Queue P M)
      → IsDistinct es
      → ((id : String) → read_file id q.disk ≡ find_entry id es)
      → IsMirrored (enforce_limit es q)
  unfolding enforce_limit
  enforce_limit-IsMirrored [] q d m = record { distinct = tt; mirror = m }
  enforce_limit-IsMirrored (x ∷ es) q d m =
      elim (Bool-cases (ltb q.max_entries (length (x ∷ es)))) [
        | inl over ↦ rw over (record { distinct = d.1; mirror = λ id. popped id })
        | inr fits ↦ rw fits (record { distinct = d; mirror = m })
      ]
    where
      popped : (id : String) → read_file id (remove_persisted x.job_id q.disk) ≡ find_entry id es
      popped id =
          unfold find_entry in
          ground
            (arith, read_file-remove_persisted x.job_id id q.disk, m id, d.0, eq_iff x.job_id id)

  -- Adding an entry whose job id is new keeps the directory a mirror of the entries in memory, also
  -- when the oldest entry has to go.
  pub add-IsMirrored :
      (e : Entry P M) (q : Queue P M)
      → IsMirrored q
      → get_entry e.job_id q ≡ none
      → IsMirrored (add e q)
  unfolding add get_entry
  add-IsMirrored e q v fresh =
      enforce_limit-IsMirrored (q.entries ++ e ∷ []) (record q { disk = persist_entry e q.disk })
        (append_one-IsDistinct q.entries e fresh v.distinct)
        (λ id.
          rw
            (
              read_file-persist_entry e id q.disk,
              find_entry-append_one id q.entries e fresh,
              v.mirror id,
            )
            refl)

  find_entry-append_self :
      (es : List (Entry P M)) (e : Entry P M) → find_entry e.job_id (es ++ e ∷ []) ≢ none
  unfolding find_entry
  find_entry-append_self [] e h = ground (arith, eq_iff e.job_id e.job_id)
  find_entry-append_self (x ∷ es) e h = ground (arith, find_entry-append_self es e)

  unlinked :
      (i j : String) (files : Disk P M) → i ≡ j → read_file j (remove_persisted i files) ≡ none
  unlinked i j files same = ground (arith, read_file-remove_persisted i j files, eq_iff i j)

  -- If the queue is full and its oldest entry has the job id of the new one, then after `add` the
  -- new entry is in memory, and its file, just written, is gone: the directory has lost it.
  pub add_same_id :
      (e oldest : Entry P M) (rest : List (Entry P M)) (q : Queue P M)
      → q.entries ≡ oldest ∷ rest
      → q.max_entries < length q.entries + 1
      → oldest.job_id ≡ e.job_id
      → (get_entry e.job_id (add e q) ≢ none) × (read_file e.job_id (add e q).disk ≡ none)
  unfolding add get_entry
  add_same_id e oldest rest q h full same =
      let over : ltb q.max_entries (length (oldest ∷ rest ++ e ∷ [])) ≡ true =
        ground (arith, length-append rest (e ∷ []), ap length h) in
      rw (h, enforce_limit)
        (rw over (
          find_entry-append_self rest e,
          unlinked oldest.job_id e.job_id (persist_entry e q.disk) same,
        ))
