-- ===== src/Bus/Command/Order.antt =====
-- Middleware runs in the order in which it was added, the handler last.
use text.Mathlib.TextPositions.{eq_refl}
use comfyui_engine.Prelude.{
  ◌≡◌, refl, ◌∙◌, ap, inl, inr, Bool, Option, none, some, List, [], ◌∷◌, ◌++◌, String, lookup,
  insert, lookup-insert, if◌then◌else◌, Option-cases,
}
use comfyui_engine.Bus.Command.{
  Dispatch, Middleware, Bus, register, add_middleware, reversed, wrap_each, dispatch,
  validation_middleware,
}

module _ {C R : Type 0} where
  -- The nest of calls that the middleware stands for: the first is the outermost.
  abbrev pub nest : List (Middleware C R) → Dispatch C R → Dispatch C R
  nest [] handler = handler
  nest (mw ∷ mws) handler = λ cmd. mw cmd (nest mws handler)

  -- What `dispatch` gives once the handler was looked up.
  abbrev pub nest_found : List (Middleware C R) → C → Option (Dispatch C R) → Option R
  nest_found mws command none = none
  nest_found mws command (some handler) = some (nest mws handler command)

  wrap_each-reversed :
      (mws acc : List (Middleware C R)) (handler : Dispatch C R)
      → wrap_each (reversed mws acc) handler ≡ wrap_each acc (nest mws handler)
  unfolding reversed wrap_each
  wrap_each-reversed [] acc handler = refl
  wrap_each-reversed (mw ∷ mws) acc handler = wrap_each-reversed mws (mw ∷ acc) handler

  -- Dispatch finds the handler of the command's type and runs it inside the middleware, the one
  -- added first outermost; without a handler it fails and no middleware runs.
  pub dispatch-eq-nest :
      (t : String) (command : C) (bus : Bus C R)
      → dispatch t command bus ≡ nest_found bus.middleware command (lookup t bus.handlers)
  unfolding dispatch
  dispatch-eq-nest t command bus = elim (Option-cases (lookup t bus.handlers)) [
    | inl missing ↦ rw (missing, dispatch) refl
    | inr (handler, found) ↦
        rw (found, dispatch)
          (ap (λ d. some (d command)) (wrap_each-reversed bus.middleware [] handler))
  ]

  nest-append :
      (mws : List (Middleware C R)) (mw : Middleware C R) (handler : Dispatch C R)
      → nest (mws ++ mw ∷ []) handler ≡ nest mws (λ cmd. mw cmd handler)
  nest-append [] mw handler = refl
  nest-append (m ∷ mws) mw handler = ap (λ d cmd. m cmd d) (nest-append mws mw handler)

  -- A command of a type whose handler was registered last, dispatched after a validation was added
  -- last, runs the earlier middleware round the validation: the handler is reached exactly if the
  -- command that arrives there is valid, and the refusal takes its place if not.
  pub dispatch-validation :
      (t : String) (command : C) (valid : C → Bool) (invalid : R) (handler : C → R) (bus : Bus C R)
      → dispatch t command
          (add_middleware (validation_middleware valid invalid) (register t handler bus))
        ≡ some (nest bus.middleware (λ c. if valid c then handler c else invalid) command)
  unfolding add_middleware register validation_middleware
  dispatch-validation t command valid invalid handler bus =
      dispatch-eq-nest t command (record {
        handlers = insert t handler bus.handlers;
        middleware = bus.middleware ++ validation_middleware valid invalid ∷ [];
      })
      ∙ rw (lookup-insert t t handler bus.handlers, eq_refl)
          (ap (λ d. some (d command))
            (nest-append bus.middleware (validation_middleware valid invalid) handler))
