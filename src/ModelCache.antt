-- ===== src/ModelCache.antt =====
-- engine/model_cache.py: ModelCache. `M` is the type of models. Times are whole seconds and memory
-- is in whole MB. The cache is a list in the order of its OrderedDict, whose keys are distinct.
-- Loaders, the estimate of a model's size, and whether a weak reference is still alive are
-- arguments. A step holds the lock from its start to its end; a task that asks for the lock while
-- it holds it waits for ever, as asyncio.Lock is not reentrant. Unloaders are not modelled.
pub mod Memory
pub mod Eviction
use comfyui_engine.Prelude.{
  ℕ, zero, suc, ◌+◌, ◌-◌, ◌*◌, ◌/◌, max, Bool, true, false, ◌&&◌, ◌||◌, Option, none, some, List,
  [], ◌∷◌, ◌++◌, String, length, take, ltb, leb, str_eq, if◌then◌else◌, Dict, lookup,
}

pub record Info (M : Type 0) : Type 0 where
  pub model : M
  pub last_used : ℕ
  pub use_count : ℕ
  pub footprint : ℕ

pub data Policy : Type 0 where
  lru lru_memory freq other_policy : Policy

pub record Stats : Type 0 where
  pub hits : ℕ
  pub misses : ℕ
  pub evictions : ℕ
  pub total_loaded : ℕ
  pub total_unloaded : ℕ
  pub memory_used : ℕ

pub record Cache (M : Type 0) : Type 0 where
  pub max_memory : ℕ
  pub max_models : ℕ
  pub policy : Policy
  pub cache : Dict (Info M)
  pub current_memory : ℕ
  pub stats : Stats

-- A call returns, or waits for a lock that its own task holds.
pub data Outcome (A : Type 0) : Type 0 where
  returns : A → Outcome A
  deadlock : Outcome A

unfoldable pub init : {M : Type 0} → ℕ → ℕ → Policy → Cache M
init max_memory max_models policy = record {
  max_memory = max_memory;
  max_models = max_models;
  policy = policy;
  cache = [];
  current_memory = 0;
  stats = record {
    hits = 0;
    misses = 0;
    evictions = 0;
    total_loaded = 0;
    total_unloaded = 0;
    memory_used = 0;
  };
}

-- A score is a fraction; the best score so far is none where it is still infinite.
unfoldable pub exceeds : ℕ × ℕ → Option (ℕ × ℕ) → Bool
exceeds s none = false
exceeds s (some b) = ltb (b.0 * s.1) (s.0 * b.1)

unfoldable pub is_below : ℕ → Option ℕ → Bool
is_below n none = true
is_below n (some b) = ltb n b

module _ {M : Type 0} where
  -- `del self._cache[name]`
  unfoldable pub delete : String → Dict (Info M) → Dict (Info M)
  delete name [] = []
  delete name ((k, i) ∷ d) = let rest = delete name d in if str_eq k name then d else (k, i) ∷ rest

  unfoldable pub first_key : Dict (Info M) → Option String
  first_key [] = none
  first_key ((k, i) ∷ d) = some k

  unfoldable pub score : ℕ → Info M → ℕ × ℕ
  score now i = ((now - i.last_used) * i.footprint, max i.use_count 1)

  -- The loop of the policy "lru_memory", with the best score and the victim so far.
  unfoldable pub scan_scores : ℕ → Option (ℕ × ℕ) → Option String → Dict (Info M) → Option String
  unfolding exceeds score
  scan_scores now best victim [] = victim
  scan_scores now best victim ((k, i) ∷ d) =
      let better = scan_scores now (some (score now i)) (some k) d in
      let rest = scan_scores now best victim d in
      if exceeds (score now i) best then better else rest

  -- The loop of the policy "freq", with the fewest uses and the victim so far.
  unfoldable pub scan_uses : Option ℕ → Option String → Dict (Info M) → Option String
  unfolding is_below
  scan_uses best victim [] = victim
  scan_uses best victim ((k, i) ∷ d) =
      let better = scan_uses (some i.use_count) (some k) d in
      let rest = scan_uses best victim d in if is_below i.use_count best then better else rest

  unfoldable pub victim_by : Policy → ℕ → Dict (Info M) → Option String
  unfolding first_key scan_scores scan_uses
  victim_by lru now d = first_key d
  victim_by lru_memory now d = scan_scores now none none d
  victim_by freq now d = scan_uses none none d
  victim_by other_policy now d = first_key d

  unfoldable pub select_victim : ℕ → Cache M → Option String
  unfolding victim_by
  select_victim now c = victim_by c.policy now c.cache

  -- `_unload_model` once it has the lock.
  unfoldable pub unload : String → Cache M → Cache M
  unfolding lookup delete
  unload name c = elim (lookup name c.cache) [
    | none ↦ c
    | some i ↦ record c {
      cache = delete name c.cache;
      current_memory = c.current_memory - i.footprint;
      stats = record c.stats {
        memory_used = c.current_memory - i.footprint;
        total_unloaded = c.stats.total_unloaded + 1;
      };
    }
  ]

  -- `_unload_model`, where the flag says whether the caller holds the lock.
  unfoldable pub unload_model : Bool → String → Cache M → Outcome (Cache M)
  unfolding unload
  unload_model true name c = deadlock
  unload_model false name c = returns (unload name c)

  unfoldable pub needs_space : ℕ → Cache M → Bool
  unfolding first_key
  needs_space needed c =
      (ltb c.max_memory (c.current_memory + needed) || leb c.max_models (length c.cache))
      && ltb 0 (length c.cache)

  unfoldable pub count_eviction : Cache M → Cache M
  count_eviction c = record c { stats = record c.stats { evictions = c.stats.evictions + 1 } }

  -- `_ensure_space`; each round that goes on removes a model, so that the number of models is
  -- enough rounds.
  unfoldable pub ensure_space : Bool → ℕ → ℕ → ℕ → Cache M → Outcome (Cache M)
  unfolding needs_space select_victim unload_model count_eviction
  ensure_space held now needed zero c = returns c
  ensure_space held now needed (suc n) c = elim (needs_space needed c) [
    | false ↦ returns c
    | true ↦ elim (select_victim now c) [
      | none ↦ returns c
      | some victim ↦ elim (unload_model held victim c) [
        | deadlock ↦ deadlock
        | returns c' ↦ ensure_space held now needed n (count_eviction c')
      ]
    ]
  ]

  unfoldable pub touch : ℕ → Info M → Info M
  touch now i = record i { last_used = now; use_count = i.use_count + 1 }

  unfoldable pub count_hit : Cache M → Cache M
  count_hit c = record c { stats = record c.stats { hits = c.stats.hits + 1 } }

  unfoldable pub count_miss : Cache M → Cache M
  count_miss c = record c { stats = record c.stats { misses = c.stats.misses + 1 } }

  -- The first half of `get_model`: the cache after it, and the entry that is hit, which is moved to
  -- the end.
  unfoldable pub find_model : ℕ → String → Cache M → Cache M × Option (Info M)
  unfolding lookup delete touch count_hit count_miss
  find_model now name c = elim (lookup name c.cache) [
    | none ↦ (count_miss c, none)
    | some i ↦ (
      count_hit (record c { cache = delete name c.cache ++ (name, touch now i) ∷ [] }),
      some (touch now i),
    )
  ]

  unfoldable pub add_model : String → Info M → Cache M → Cache M
  add_model name i c = record c {
    cache = c.cache ++ (name, i) ∷ [];
    current_memory = c.current_memory + i.footprint;
    stats = record c.stats {
      total_loaded = c.stats.total_loaded + 1;
      memory_used = c.current_memory + i.footprint;
    };
  }

  -- The second half of `get_model`, with the model that was loaded and the estimate of its size:
  -- the cache after it, and the entry whose model is returned.
  unfoldable pub store_model : ℕ → String → M → ℕ → Cache M → Outcome (Cache M × Info M)
  unfolding lookup ensure_space add_model
  store_model now name model size c = elim (lookup name c.cache) [
    | some i ↦ returns (c, i)
    | none ↦
        (let i : Info M = record {
          model = model;
          last_used = now;
          use_count = 1;
          footprint = size;
        } in
          elim (ensure_space true now size (length c.cache) c) [
            | deadlock ↦ deadlock
            | returns c' ↦ returns (add_model name i c', i)
          ])
  ]

  -- Unloading one after the other, by a task that does not hold the lock.
  unfoldable pub unload_each : List String → Cache M → Cache M
  unfolding unload
  unload_each [] c = c
  unload_each (k ∷ ks) c = unload_each ks (unload k c)

  unfoldable pub keys : Dict (Info M) → List String
  keys [] = []
  keys ((k, i) ∷ d) = k ∷ keys d

  unfoldable pub clear : Cache M → Cache M
  unfolding keys unload_each
  clear c = unload_each (keys c.cache) c

  -- A round of `_memory_monitor`, with the percentage of the system's memory that is used.
  unfoldable pub relieve : ℕ → Cache M → Cache M
  unfolding keys unload_each
  relieve percent c =
      if ltb 90 percent
      then unload_each (take (length c.cache / 2) (keys c.cache)) c
      else if ltb 80 percent
      then unload_each (take 1 (keys c.cache)) c
      else c
