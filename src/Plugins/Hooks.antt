-- ===== src/Plugins/Hooks.antt =====
-- engine/plugin_system.py: PluginHook and HookRegistry. `C` is the type of contexts, with the
-- arguments of the call, and `R` that of results. A handler that raises gives none.
use comfyui_engine.Prelude.{
  ℕ, not, Option, none, some, List, [], ◌∷◌, ◌++◌, String, keep, ltb, str_eq, if◌then◌else◌, Dict,
  lookup, insert,
}

-- A handler, its priority and the plugin it comes from.
pub record Handler (C R : Type 0) : Type 0 where
  pub call : C → Option R
  pub priority : ℕ
  pub plugin_name : String

pub record Hook (C R : Type 0) : Type 0 where
  pub name : String
  pub handlers : List (Handler C R)

module _ {C R : Type 0} where
  -- The stable sort by priority.
  unfoldable pub insert_handler : Handler C R → List (Handler C R) → List (Handler C R)
  insert_handler h [] = h ∷ []
  insert_handler h (k ∷ ks) =
      let rest = insert_handler h ks in if ltb k.priority h.priority then k ∷ rest else h ∷ k ∷ ks

  unfoldable pub sort_handlers : List (Handler C R) → List (Handler C R)
  unfolding insert_handler
  sort_handlers [] = []
  sort_handlers (h ∷ hs) = insert_handler h (sort_handlers hs)

  -- `PluginHook.register`
  unfoldable pub register : Handler C R → Hook C R → Hook C R
  unfolding sort_handlers
  register h hook = record hook { handlers = sort_handlers (hook.handlers ++ h ∷ []) }

  -- `PluginHook.unregister`
  unfoldable pub unregister : String → Hook C R → Hook C R
  unregister plugin hook = record hook {
    handlers = keep (λ h. not (str_eq h.plugin_name plugin)) hook.handlers;
  }

  -- `PluginHook.fire`: the results of the handlers that do not raise, in their order.
  unfoldable pub fire_each : C → List (Handler C R) → List R
  fire_each c [] = []
  fire_each c (h ∷ hs) = elim (h.call c) [ none ↦ fire_each c hs | some r ↦ r ∷ fire_each c hs ]

  unfoldable pub fire : C → Hook C R → List R
  unfolding fire_each
  fire c hook = fire_each c hook.handlers

  unfoldable pub new_hook : String → Hook C R
  new_hook name = record { name = name; handlers = [] }

  -- `HookRegistry.register_hook`: the registry after it; the hook is then under its name.
  unfoldable pub register_hook : String → Dict (Hook C R) → Dict (Hook C R)
  unfolding lookup insert new_hook
  register_hook name hooks = elim (lookup name hooks) [
    | none ↦ insert name (new_hook name) hooks
    | some hook ↦ hooks
  ]

  -- `HookRegistry.fire`
  unfoldable pub fire_hook_name : String → C → Dict (Hook C R) → List R
  unfolding lookup fire
  fire_hook_name name c hooks = elim (lookup name hooks) [ none ↦ [] | some hook ↦ fire c hook ]

  -- `HookRegistry.unregister_plugin`
  unfoldable pub unregister_plugin : String → Dict (Hook C R) → Dict (Hook C R)
  unfolding unregister
  unregister_plugin plugin [] = []
  unregister_plugin plugin ((name, hook) ∷ hooks) =
      (name, unregister plugin hook) ∷ unregister_plugin plugin hooks

  -- `HookRegistry._register_builtin_hooks`, with the names of BUILTIN_HOOKS.
  unfoldable pub register_builtin_hooks : List String → Dict (Hook C R) → Dict (Hook C R)
  unfolding insert new_hook
  register_builtin_hooks [] hooks = hooks
  register_builtin_hooks (name ∷ names) hooks =
      register_builtin_hooks names (insert name (new_hook name) hooks)
