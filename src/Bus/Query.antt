-- ===== src/Bus/Query.antt =====
-- engine/query.py: the query bus and its cache. `Q` is the type of queries, `R` of results. A
-- handler that raises gives `none`; `asked` counts the runs of handlers. The lock, with the second
-- look at the cache behind it, makes `ask_cached` one step for the task that fills the cache.
pub mod Cache
use comfyui_engine.Prelude.{
  ℕ, ◌+◌, Option, none, some, List, [], ◌∷◌, String, length, Dict, lookup, insert, erase,
}

pub record Bus (Q R : Type 0) : Type 0 where
  pub handlers : Dict (Q → Option R)
  pub cache : Dict R
  pub asked : ℕ

module _ {Q R : Type 0} where
  unfoldable pub register : String → (Q → Option R) → Bus Q R → Bus Q R
  register t h bus = record bus { handlers = insert t h bus.handlers }

  -- `ask`: `none` for an exception, also the `KeyError` for a type without a handler.
  pub ask : String → Q → Bus Q R → Option R × Bus Q R
  ask t query bus = elim (lookup t bus.handlers) [
    | none ↦ (none, bus)
    | some handler ↦ (handler query, record bus { asked = bus.asked + 1 })
  ]

  pub store : String → Option R × Bus Q R → Option R × Bus Q R
  store key (none, bus) = (none, bus)
  store key (some result, bus) = (some result, record bus { cache = insert key result bus.cache })

  unfoldable pub ask_cached : String → Q → String → Bus Q R → Option R × Bus Q R
  unfolding ask store
  ask_cached t query key bus = elim (lookup key bus.cache) [
    | some result ↦ (some result, bus)
    | none ↦ store key (ask t query bus)
  ]

  pub invalidate : String → Bus Q R → Bus Q R
  invalidate key bus = record bus { cache = erase key bus.cache }

  unfoldable pub clear_cache : Bus Q R → Bus Q R
  clear_cache bus = record bus { cache = [] }

  unfoldable pub cache_size : Bus Q R → ℕ
  cache_size bus = length bus.cache
