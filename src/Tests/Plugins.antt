-- ===== src/Tests/Plugins.antt =====
-- Tests and instances for engine/plugin_system.py. Contexts and results are numbers.
use comfyui_engine.Prelude.{ℕ, ◌+◌, ◌≡◌, refl, Bool, true, some, List, [], ◌∷◌, lookup}
use comfyui_engine.Plugins.Hooks.{Handler, new_hook, fire}
use comfyui_engine.Plugins.Manager.{Metadata, Start, starts, Manager, init, load_plugin, fire_hook}
use comfyui_engine.Plugins.Silence.{loads, reloads, run, fire_hook-run}
use comfyui_engine.Plugins.Priorities.{register_all}

abbrev meta : Metadata
meta = record {
  name = "tags";
  requires_engine = ">=3.0.0";
  requires_plugins = [];
  hooks = "engine.start" ∷ [];
  enabled = true;
}

abbrev start : Start ℕ ℕ
start = starts (λ hook. some (λ c. some (c + 1)))

abbrev loaded : Manager ℕ ℕ × Bool
loaded = load_plugin (λ r. true) "tags" meta 5 start (init ("engine.start" ∷ []))

-- The plugin counts as loaded, and its handler is not called.
is_loaded : loaded.1 ≡ true
unfolding load_plugin init lookup
is_loaded = refl

fire_hook-run_example :
    fire_hook
      (λ name c. c)
      0
      "engine.start"
      (run
        (λ r. true)
        (loads "tags" meta 5 start ∷ reloads "tags" meta 6 start ∷ [])
        (init ("engine.start" ∷ [])))
    ≡ []
fire_hook-run_example =
    fire_hook-run (λ r. true) (λ name c. c) 0 ("engine.start" ∷ [])
      (loads "tags" meta 5 start ∷ reloads "tags" meta 6 start ∷ []) "engine.start"

abbrev handler : ℕ → ℕ → Handler ℕ ℕ
handler priority result = record {
  call = λ c. some result;
  priority = priority;
  plugin_name = "tags";
}

abbrev handlers : List (Handler ℕ ℕ)
handlers = handler 50 1 ∷ handler 10 2 ∷ handler 50 3 ∷ []

in_order : fire 0 (register_all handlers (new_hook "engine.start")) ≡ 2 ∷ 1 ∷ 3 ∷ []
unfolding fire register_all new_hook
in_order = refl
