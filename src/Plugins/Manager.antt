-- ===== src/Plugins/Manager.antt =====
-- engine/plugin_system.py: PluginManager, from loading a plugin to firing a hook. What importing and
-- starting a plugin's module gives is an argument, and so are the test of the engine's version and
-- the merging of a call's context. Finding the files of plugins is not modelled.
use comfyui_engine.Prelude.{
  Bool, true, false, not, Option, none, some, List, [], ◌∷◌, ◌++◌, String, all, if◌then◌else◌, Dict,
  lookup, insert, erase,
}
use comfyui_engine.Plugins.Hooks.{
  Hook, register, register_hook, fire_hook_name, unregister_plugin, register_builtin_hooks,
}

pub record Metadata : Type 0 where
  pub name : String
  pub requires_engine : String
  pub requires_plugins : List String
  pub hooks : List String
  pub enabled : Bool

-- A plugin: its metadata and, under a hook's name, the method named after the hook.
pub record Plugin (C R : Type 0) : Type 0 where
  pub metadata : Metadata
  pub method : String → Option (C → Option R)

-- How importing the module and starting the plugin ends: an import that fails or has nothing to
-- import, a module without a plugin class, a plugin that raises when it is made or initialised, and
-- a plugin.
pub data Start (C R : Type 0) : Type 0 where
  no_module no_class raises : Start C R
  starts : (String → Option (C → Option R)) → Start C R

pub record Manager (C R : Type 0) : Type 0 where
  pub registry : Dict (Hook C R)
  pub plugins : Dict (Plugin C R)
  pub metadata : Dict Metadata
  pub contexts : Dict C
  pub loaded_modules : Dict Bool

module _ {V : Type 0} where
  abbrev pub is_in : String → Dict V → Bool
  is_in k d = elim (lookup k d) [ none ↦ false | some v ↦ true ]

module _ {C R : Type 0} where
  unfoldable pub init : List String → Manager C R
  unfolding register_builtin_hooks
  init builtin = record {
    registry = register_builtin_hooks builtin [];
    plugins = [];
    metadata = [];
    contexts = [];
    loaded_modules = [];
  }

  -- `hook.register(handler, plugin_name=...)` on the hook under the name, with the default priority.
  unfoldable pub add_handler : String → String → (C → Option R) → Dict (Hook C R) → Dict (Hook C R)
  unfolding lookup insert register register_hook
  add_handler plugin hook_name f hooks = elim (lookup hook_name (register_hook hook_name hooks)) [
    | none ↦ register_hook hook_name hooks
    | some hook ↦
        insert hook_name (register (record { call = f; priority = 50; plugin_name = plugin }) hook)
          (register_hook hook_name hooks)
  ]

  unfoldable pub register_each :
      String → (String → Option (C → Option R)) → List String → Dict (Hook C R) → Dict (Hook C R)
  unfolding add_handler
  register_each plugin method [] hooks = hooks
  register_each plugin method (h ∷ hs) hooks =
      register_each plugin method hs
        (elim (method h) [ none ↦ hooks | some f ↦ add_handler plugin h f hooks ])

  -- `_register_plugin_hooks`
  unfoldable pub register_plugin_hooks :
      String → (String → Option (C → Option R)) → Manager C R → Manager C R
  unfolding lookup register_each
  register_plugin_hooks plugin method m = elim (lookup plugin m.metadata) [
    | none ↦ m
    | some meta ↦ record m { registry = register_each plugin method meta.hooks m.registry }
  ]

  unfoldable pub add_plugin :
      String → Metadata → (String → Option (C → Option R)) → Manager C R → Manager C R
  unfolding insert
  add_plugin name meta method m = record m {
    plugins = insert name (record { metadata = meta; method = method }) m.plugins;
    metadata = insert name meta m.metadata;
  }

  unfoldable pub add_module : String → Manager C R → Manager C R
  unfolding insert
  add_module name m = record m { loaded_modules = insert name true m.loaded_modules }

  unfoldable pub add_context : String → C → Manager C R → Manager C R
  unfolding insert
  add_context name c m = record m { contexts = insert name c m.contexts }

  -- `_load_plugin` past the tests of its metadata.
  unfoldable pub start_plugin : String → Metadata → C → Start C R → Manager C R → Manager C R × Bool
  unfolding add_module add_context register_plugin_hooks add_plugin
  start_plugin name meta c no_module m = (m, false)
  start_plugin name meta c no_class m = (add_module name m, false)
  start_plugin name meta c raises m = (add_context name c (add_module name m), false)
  start_plugin name meta c (starts method) m = (
    add_plugin name meta method
        (register_plugin_hooks name method (add_context name c (add_module name m))),
    true,
  )

  -- The tests of `_load_plugin`.
  unfoldable pub may_load : (String → Bool) → String → Metadata → Manager C R → Bool
  unfolding lookup
  may_load version_ok name meta m =
      if is_in name m.plugins
      then false
      else if not meta.enabled
      then false
      else if not (version_ok meta.requires_engine)
      then false
      else all (λ dep. is_in dep m.plugins) meta.requires_plugins

  -- `_load_plugin`, with the metadata that was read, the context and how the start ends.
  unfoldable pub load_plugin :
      (String → Bool) → String → Metadata → C → Start C R → Manager C R → Manager C R × Bool
  unfolding may_load start_plugin
  load_plugin version_ok name meta c start m =
      if may_load version_ok name meta m then start_plugin name meta c start m else (m, false)

  -- `unload_plugin`; an error of the plugin's `shutdown` is caught.
  unfoldable pub unload_plugin : String → Manager C R → Manager C R × Bool
  unfolding lookup erase unregister_plugin
  unload_plugin name m = elim (lookup name m.plugins) [
    | none ↦ (m, false)
    | some plugin ↦ (
      record {
        registry = unregister_plugin name m.registry;
        plugins = erase name m.plugins;
        metadata = erase name m.metadata;
        contexts = erase name m.contexts;
        loaded_modules = erase name m.loaded_modules;
      },
      true,
    )
  ]

  -- `reload_plugin` of a plugin whose file is there.
  unfoldable pub reload_plugin :
      (String → Bool) → String → Metadata → C → Start C R → Manager C R → Manager C R × Bool
  unfolding load_plugin unload_plugin
  reload_plugin version_ok name meta c start m =
      load_plugin version_ok name meta c start (unload_plugin name m).0

  -- The loop of `fire_hook`: the hook is fired once for each plugin, with the plugin's context.
  unfoldable pub fire_for_each :
      (String → C → C) → C → String → Dict (Plugin C R) → Manager C R → List R
  unfolding lookup fire_hook_name
  fire_for_each merge empty hook_name [] m = []
  fire_for_each merge empty hook_name ((name, p) ∷ ps) m =
      fire_hook_name hook_name
        (merge name (elim (lookup name m.contexts) [ none ↦ empty | some c ↦ c ])) m.registry
      ++ fire_for_each merge empty hook_name ps m

  -- `fire_hook`, with the merging of `plugin_context` and the empty context.
  unfoldable pub fire_hook : (String → C → C) → C → String → Manager C R → List R
  unfolding fire_for_each
  fire_hook merge empty hook_name m = fire_for_each merge empty hook_name m.plugins m
