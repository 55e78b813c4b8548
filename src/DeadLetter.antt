-- ===== src/DeadLetter.antt =====
-- engine/dead_letter_queue.py: the queue of jobs that failed for good, in memory and on disk. `P` is
-- the type of payloads and `M` that of the metadata. Times are whole seconds. The directory is a
-- list of files by job id (the code's file name is the job id with ".json"); writing and unlinking
-- a file does not fail. The lock makes each method one step. A replay handler is a function that
-- tells whether it returned or raised.
pub mod Files
pub mod Bounds
pub mod Cleanup
pub mod Replay
pub mod Loading
use comfyui_engine.Prelude.{
  ℕ, ◌+◌, ◌*◌, Bool, true, false, Option, none, some, List, [], ◌∷◌, ◌++◌, String, length, take,
  drop, keep, count_if, ltb, leb, str_eq, if◌then◌else◌,
}

pub data Reason : Type 0 where
  max_retries_exceeded circuit_breaker_open timeout validation_error unknown_error : Reason

-- `==` on the members of the enumeration.
abbrev pub same_reason : Reason → Reason → Bool
same_reason max_retries_exceeded max_retries_exceeded = true
same_reason circuit_breaker_open circuit_breaker_open = true
same_reason timeout timeout = true
same_reason validation_error validation_error = true
same_reason unknown_error unknown_error = true
same_reason _ _ = false

pub record Entry (P M : Type 0) : Type 0 where
  pub job_id : String
  pub payload : P
  pub meta : M
  pub reason : Reason
  pub error_message : String
  pub retry_count : ℕ
  pub created_at : ℕ
  pub last_retry_at : Option ℕ
  pub replay_count : ℕ

abbrev pub Disk : Type 0 → Type 0 → Type 0
Disk P M = List (String × Entry P M)

-- A handler, applied to a payload and the metadata, returns (`true`) or raises.
abbrev pub Handler : Type 0 → Type 0 → Type 0
Handler P M = P → M → Bool

pub record Queue (P M : Type 0) : Type 0 where
  pub max_entries : ℕ
  pub retention_days : ℕ
  pub entries : List (Entry P M)
  pub disk : Disk P M
  pub handlers : Reason → Option (Handler P M)

-- `modified_payload or entry.payload`: a payload that is false, as an empty dictionary is, counts as
-- none.
unfoldable pub choose_payload : {P : Type 0} → (P → Bool) → Option P → P → P
choose_payload truthy none own = own
choose_payload truthy (some p) own = if truthy p then p else own

module _ {P M : Type 0} where
  -- `_remove_persisted`: unlinks the file of the entry's job id, if it is there.
  pub remove_persisted : String → Disk P M → Disk P M
  remove_persisted id [] = []
  remove_persisted id ((name, e) ∷ files) =
      let rest = remove_persisted id files in if str_eq name id then rest else (name, e) ∷ rest

  -- `_persist_entry`: writes the file of the entry's job id, over one that is there.
  pub persist_entry : Entry P M → Disk P M → Disk P M
  unfolding remove_persisted
  persist_entry e files = (e.job_id, e) ∷ remove_persisted e.job_id files

  unfoldable pub read_file : String → Disk P M → Option (Entry P M)
  read_file id [] = none
  read_file id ((name, e) ∷ files) = if str_eq name id then some e else read_file id files

  -- The `if len(self._entries) > self.max_entries` of `add`.
  enforce_limit : List (Entry P M) → Queue P M → Queue P M
  unfolding remove_persisted
  enforce_limit [] q = record q { entries = [] }
  enforce_limit (oldest ∷ rest) q =
      if ltb q.max_entries (length (oldest ∷ rest))
      then record q { entries = rest; disk = remove_persisted oldest.job_id q.disk }
      else record q { entries = oldest ∷ rest }

  -- `add`, of the entry that it builds.
  unfoldable pub add : Entry P M → Queue P M → Queue P M
  unfolding persist_entry enforce_limit
  add e q = enforce_limit (q.entries ++ e ∷ []) (record q { disk = persist_entry e q.disk })

  of_reason : Option Reason → List (Entry P M) → List (Entry P M)
  of_reason none entries = entries
  of_reason (some r) entries = keep (λ e. same_reason e.reason r) entries

  unfoldable pub list_entries : Option Reason → ℕ → ℕ → Queue P M → List (Entry P M)
  unfolding of_reason
  list_entries reason limit offset q = take limit (drop offset (of_reason reason q.entries))

  pub find_entry : String → List (Entry P M) → Option (Entry P M)
  find_entry id [] = none
  find_entry id (e ∷ es) = if str_eq e.job_id id then some e else find_entry id es

  unfoldable pub get_entry : String → Queue P M → Option (Entry P M)
  unfolding find_entry
  get_entry id q = find_entry id q.entries

  -- `entry.replay_count += 1; entry.last_retry_at = time.time()` on the object that `get_entry`
  -- found, the first with the job id.
  mark_replayed : ℕ → String → List (Entry P M) → List (Entry P M)
  mark_replayed now id [] = []
  mark_replayed now id (e ∷ es) =
      let rest = mark_replayed now id es in
      if str_eq e.job_id id
      then record e { replay_count = e.replay_count + 1; last_retry_at = some now } ∷ es
      else e ∷ rest

  unfoldable pub or_registered : Option (Handler P M) → Option (Handler P M) → Option (Handler P M)
  or_registered none registered = registered
  or_registered (some handler) registered = some handler

  replay_found :
      (P → Bool) → ℕ → Option (Handler P M) → Option P → Entry P M → Queue P M → Queue P M × Bool
  unfolding or_registered choose_payload mark_replayed
  replay_found truthy now handler modified e q =
      elim (or_registered handler (q.handlers e.reason)) [
        | none ↦ (q, false)
        | some h ↦ (
          record q { entries = mark_replayed now e.job_id q.entries },
          h (choose_payload truthy modified e.payload) e.meta,
        )
      ]

  -- `replay`: the queue after it, and the result.
  unfoldable pub replay :
      (P → Bool) → ℕ → String → Option (Handler P M) → Option P → Queue P M → Queue P M × Bool
  unfolding replay_found get_entry
  replay truthy now id handler modified q = elim (get_entry id q) [
    | none ↦ (q, false)
    | some e ↦ replay_found truthy now handler modified e q
  ]

  unfoldable pub register_replay_handler : Reason → Handler P M → Queue P M → Queue P M
  register_replay_handler reason handler q = record q {
    handlers = λ r. if same_reason reason r then some handler else q.handlers r;
  }

  -- `e.created_at < time.time() - retention_days * 86400`
  abbrev pub is_old : ℕ → ℕ → Entry P M → Bool
  is_old now days e = ltb (e.created_at + days * 86400) now

  -- `list.remove`: the first element that is equal, by the equality of the dataclass.
  pub remove_entry :
      (Entry P M → Entry P M → Bool) → Entry P M → List (Entry P M) → List (Entry P M)
  remove_entry same e [] = []
  remove_entry same e (x ∷ xs) =
      let rest = remove_entry same e xs in if same x e then xs else x ∷ rest

  -- The loop of `cleanup` over the entries to remove.
  pub remove_each :
      (Entry P M → Entry P M → Bool) → List (Entry P M) → Queue P M → ℕ → Queue P M × ℕ
  unfolding remove_entry remove_persisted
  remove_each same [] q removed = (q, removed)
  remove_each same (e ∷ es) q removed =
      remove_each same es
        (record q {
          entries = remove_entry same e q.entries;
          disk = remove_persisted e.job_id q.disk;
        })
        (removed + 1)

  pub cleanup : (Entry P M → Entry P M → Bool) → ℕ → Queue P M → Queue P M × ℕ
  unfolding remove_each
  cleanup same now q = remove_each same (keep (is_old now q.retention_days) q.entries) q 0

  -- `entries.sort(key=lambda e: e.created_at)`, which is stable.
  insert_by_time : Entry P M → List (Entry P M) → List (Entry P M)
  insert_by_time e [] = e ∷ []
  insert_by_time e (x ∷ xs) =
      let rest = insert_by_time e xs in
      if leb e.created_at x.created_at then e ∷ x ∷ xs else x ∷ rest

  sort_by_time : List (Entry P M) → List (Entry P M)
  unfolding insert_by_time
  sort_by_time [] = []
  sort_by_time (e ∷ es) = insert_by_time e (sort_by_time es)

  -- The files that can be read and parsed, in the order of their paths.
  pub parsed : List (Option (Entry P M)) → List (Entry P M)
  parsed [] = []
  parsed (none ∷ files) = parsed files
  parsed (some e ∷ files) = e ∷ parsed files

  -- `load_from_disk`, from what each file of the sorted directory gives.
  pub load_from_disk : List (Option (Entry P M)) → Queue P M → Queue P M
  unfolding sort_by_time parsed
  load_from_disk files q = record q { entries = sort_by_time (parsed files) }

-- `get_stats`, without the directory's name.
pub record Stats : Type 0 where
  pub total_entries : ℕ
  pub by_reason : Reason → ℕ
  pub replayable : ℕ
  pub max_entries : ℕ
  pub retention_days : ℕ

abbrev pub has_handler : {P M : Type 0} → Option (Handler P M) → Bool
has_handler none = false
has_handler (some h) = true

pub get_stats : {P M : Type 0} → Queue P M → Stats
get_stats q = record {
  total_entries = length q.entries;
  by_reason = λ r. count_if (λ e. same_reason e.reason r) q.entries;
  replayable = count_if (λ e. has_handler (q.handlers e.reason)) q.entries;
  max_entries = q.max_entries;
  retention_days = q.retention_days;
}
