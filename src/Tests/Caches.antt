-- ===== src/Tests/Caches.antt =====
-- Tests and instances for engine/model_cache.py. A model is a number.
use comfyui_engine.Prelude.{ℕ, ◌≡◌, refl, none, [], ◌∷◌, if◌then◌else◌, ◌&&◌, lookup}
use comfyui_engine.ModelCache.{
  Policy, lru, lru_memory, freq, Cache, returns, deadlock, needs_space, add_model, store_model,
  select_victim,
}
use comfyui_engine.ModelCache.Memory.{
  IsAccounted, After, finds, unloads, stores, clears, run, run-IsAccounted,
}
use comfyui_engine.ModelCache.Eviction.{finds_victims, entry, store_model_lem}

abbrev empty_cache : Policy → Cache ℕ
empty_cache p = record {
  max_memory = 100;
  max_models = 1;
  policy = p;
  cache = [];
  current_memory = 0;
  stats = record {
    total_loaded = 0;
    total_unloaded = 0;
    memory_used = 0;
    hits = 0;
    misses = 0;
    evictions = 0;
  };
}

abbrev full_cache : Policy → Cache ℕ
full_cache p = add_model "base" (entry 5 7 40) (empty_cache p)

-- The policy by uses blocks on its own lock; the default policy goes beyond the one model that is
-- allowed.
freq_blocks : store_model 9 "vae" 8 10 (full_cache freq) ≡ deadlock
unfolding store_model
freq_blocks = refl

default_finds_no_victim : select_victim 9 (full_cache lru_memory) ≡ none
unfolding select_victim add_model
default_finds_no_victim = refl

store_model_lem_example : store_model 9 "vae" 8 10 (full_cache lru) ≡ (
    if needs_space 10 (full_cache lru) && finds_victims lru
    then deadlock
    else returns (add_model "vae" (entry 9 8 10) (full_cache lru), entry 9 8 10))
unfolding add_model lookup
store_model_lem_example = store_model_lem 9 "vae" 8 10 (full_cache lru) refl

run-IsAccounted_example : After IsAccounted (
    run
      ((stores "base" 7 40, 1)
        ∷ (finds "base", 2)
        ∷ (unloads "base", 3)
        ∷ (stores "vae" 8 10, 4)
        ∷ (clears, 5)
        ∷ [])
      (empty_cache lru))
run-IsAccounted_example =
    run-IsAccounted
      ((stores "base" 7 40, 1)
        ∷ (finds "base", 2)
        ∷ (unloads "base", 3)
        ∷ (stores "vae" 8 10, 4)
        ∷ (clears, 5)
        ∷ [])
      (empty_cache lru) (refl, refl, refl)
