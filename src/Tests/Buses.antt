-- ===== src/Tests/Buses.antt =====
-- Tests and instances for engine/health.py, engine/command.py, engine/query.py and engine/events.py.
use comfyui_engine.Prelude.{
  ℕ, ◌+◌, ◌≡◌, refl, Bool, false, none, some, List, [], ◌∷◌, ◌++◌, String, str_eq, if◌then◌else◌,
  Dict, lookup, insert, ltb,
}
use comfyui_engine.Health.{
  healthy, degraded, unhealthy, CheckResult, is_ready, overall_status, finished, timed_out, raised,
  Check, register, run_all, run_one,
}
use comfyui_engine.Bus.Command
use comfyui_engine.Bus.Command.Order.{nest, nest_found, dispatch-eq-nest, dispatch-validation}
use comfyui_engine.Bus.Query
use comfyui_engine.Bus.Query.Cache.{ask_cached-invalidate}
use comfyui_engine.Bus.Event

abbrev good : CheckResult
good = record { name = "api"; status = healthy; latency = 0; message = "" }

abbrev slow : CheckResult
slow = record { name = "disk"; status = degraded; latency = 0; message = "" }

abbrev checks : Dict Check
checks = ("api", (finished good, 3)) ∷ ("disk", (finished slow, 4)) ∷ ("redis", (timed_out, 5)) ∷ []

status_of_all : overall_status (run_all checks) ≡ unhealthy
unfolding overall_status run_all
status_of_all = refl

unknown_check : is_ready (run_one "gpu" (register "api" (raised "no", 1) checks) ∷ []) ≡ false
unfolding is_ready run_one register lookup insert
unknown_check = refl

-- Middleware that writes its name before and after the rest.
abbrev named : String → Command.Middleware ℕ (List String)
named name command next = (name ∷ next command) ++ name ∷ []

abbrev commands : Command.Bus ℕ (List String)
commands = record {
  handlers = ("generate", λ n. "handler" ∷ []) ∷ [];
  middleware = named "first" ∷ named "second" ∷ [];
}

order_of_calls :
    Command.dispatch "generate" 1 commands
    ≡ some ("first" ∷ "second" ∷ "handler" ∷ "second" ∷ "first" ∷ [])
unfolding Command.dispatch lookup insert
order_of_calls = refl

dispatch-eq-nest_example :
    Command.dispatch "generate" 1 commands
    ≡ nest_found commands.middleware 1 (lookup "generate" commands.handlers)
dispatch-eq-nest_example = dispatch-eq-nest "generate" 1 commands

abbrev positive : ℕ → Bool
positive n = ltb 0 n

dispatch-validation_example :
    Command.dispatch "upscale" 0 (
      Command.add_middleware
        (Command.validation_middleware positive ("refused" ∷ []))
        (Command.register "upscale" (λ n. "handler" ∷ []) commands))
    ≡ some (nest commands.middleware (λ n. if positive n then "handler" ∷ [] else "refused" ∷ []) 0)
dispatch-validation_example =
    dispatch-validation "upscale" 0 positive ("refused" ∷ []) (λ n. "handler" ∷ []) commands

abbrev queries : Query.Bus ℕ ℕ
queries = record { handlers = ("double", λ n. some (n + n)) ∷ []; cache = []; asked = 0 }

asked_once :
    (Query.ask_cached "double" 5 "k" (Query.ask_cached "double" 4 "k" queries).1)
    ≡ (some 8, record queries { cache = ("k", 8) ∷ []; asked = 1 })
unfolding Query.ask_cached lookup insert
asked_once = refl

registered_and_cleared :
    Query.cache_size (Query.clear_cache (Query.register "half" (λ n. none) queries)) ≡ 0
unfolding Query.cache_size Query.clear_cache Query.register
registered_and_cleared = refl

first_ask : (Query.ask_cached "double" 4 "k" queries).0 ≡ some 8
unfolding Query.ask_cached lookup insert
first_ask = refl

ask_cached-invalidate_example :
    (Query.ask_cached "double" 4 "k" (Query.invalidate "k" queries)
      ≡ Query.store "k" (Query.ask "double" 4 (Query.invalidate "k" queries)))
    × ((other : String)
        → str_eq "k" other ≡ false
        → lookup other (Query.invalidate "k" queries).cache ≡ lookup other queries.cache)
ask_cached-invalidate_example = ask_cached-invalidate "double" "k" 4 queries

abbrev events : Event.Bus ℕ
events = record { handlers = ("job", 1 ∷ []) ∷ []; global_handlers = 9 ∷ [] }

all_receive :
    Event.publish (λ h. false) "job" (Event.subscribe_all 8 (Event.subscribe "job" 2 events))
    ≡ (1, false) ∷ (2, false) ∷ (9, false) ∷ (8, false) ∷ []
unfolding Event.publish Event.subscribe Event.subscribe_all lookup insert
all_receive = refl
