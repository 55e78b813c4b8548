-- ===== src/Bus/Command.antt =====
-- engine/command.py: the command bus and its middleware. `C` is the type of commands, `R` of what a
-- dispatch gives (a result or an exception, together with any effects).
pub mod Order
use comfyui_engine.Prelude.{
  Bool, true, false, Option, none, some, List, [], ◌∷◌, ◌++◌, String, Dict, lookup, insert,
  if◌then◌else◌,
}

abbrev pub Dispatch : Type 0 → Type 0 → Type 0
Dispatch C R = C → R

abbrev pub Middleware : Type 0 → Type 0 → Type 0
Middleware C R = C → Dispatch C R → R

pub record Bus (C R : Type 0) : Type 0 where
  pub handlers : Dict (C → R)
  pub middleware : List (Middleware C R)

module _ {C R : Type 0} where
  pub register : String → (C → R) → Bus C R → Bus C R
  register t h bus = record bus { handlers = insert t h bus.handlers }

  -- `use`
  pub add_middleware : Middleware C R → Bus C R → Bus C R
  add_middleware mw bus = record bus { middleware = bus.middleware ++ mw ∷ [] }

  reversed : List (Middleware C R) → List (Middleware C R) → List (Middleware C R)
  reversed [] acc = acc
  reversed (mw ∷ mws) acc = reversed mws (mw ∷ acc)

  -- The loop of `dispatch` over the reversed middleware: each wraps the pipeline built so far.
  wrap_each : List (Middleware C R) → Dispatch C R → Dispatch C R
  wrap_each [] pipeline = pipeline
  wrap_each (mw ∷ mws) pipeline = wrap_each mws (λ cmd. mw cmd pipeline)

  -- `dispatch` of a command of a type; `none` is the `KeyError` for a type without a handler.
  unfoldable pub dispatch : String → C → Bus C R → Option R
  unfolding reversed wrap_each
  dispatch t command bus = elim (lookup t bus.handlers) [
    | none ↦ none
    | some handler ↦ some (wrap_each (reversed bus.middleware []) handler command)
  ]

  -- `validation_middleware`, for a command's `validate` that either returns or raises, and what
  -- raising gives.
  pub validation_middleware : (C → Bool) → R → Middleware C R
  validation_middleware valid invalid command next = if valid command then next command else invalid
