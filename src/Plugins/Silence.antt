-- ===== src/Plugins/Silence.antt =====
-- Which handlers of plugins the hooks have.
use comfyui_engine.Prelude.{
  ◌≡◌, refl, inl, inr, arith, Bool, true, none, some, List, [], ◌∷◌, String, All, str_eq, Dict,
  lookup, insert, lookup-insert, lookup-erase, Bool-cases, Option-cases,
}
use comfyui_engine.Plugins.Hooks.{
  Hook, unregister, fire_each, fire, new_hook, fire_hook_name, unregister_plugin,
  register_builtin_hooks,
}
use comfyui_engine.Plugins.Manager.{
  Metadata, Plugin, Start, no_module, no_class, raises, starts, Manager, init,
  register_plugin_hooks, add_plugin, add_module, add_context, start_plugin, may_load, load_plugin,
  unload_plugin, reload_plugin, fire_for_each, fire_hook,
}

pub data Op (C R : Type 0) : Type 0 where
  loads reloads : String → Metadata → C → Start C R → Op C R
  unloads : String → Op C R

module _ {C R : Type 0} where
  unfoldable pub apply : (String → Bool) → Op C R → Manager C R → Manager C R
  unfolding load_plugin reload_plugin unload_plugin
  apply version_ok (loads name meta c start) m = (load_plugin version_ok name meta c start m).0
  apply version_ok (reloads name meta c start) m = (reload_plugin version_ok name meta c start m).0
  apply version_ok (unloads name) m = (unload_plugin name m).0

  unfoldable pub run : (String → Bool) → List (Op C R) → Manager C R → Manager C R
  unfolding apply
  run version_ok [] m = m
  run version_ok (op ∷ ops) m = run version_ok ops (apply version_ok op m)

  abbrev pub IsEmpty : String × Hook C R → Type 0
  IsEmpty p = p.1.handlers ≡ []

  -- No hook has a handler, and only plugins that are loaded have metadata.
  abbrev pub IsSilent : Manager C R → Type 0
  IsSilent m =
      All IsEmpty m.registry
      × ((name : String) → lookup name m.plugins ≡ none → lookup name m.metadata ≡ none)

  insert-All :
      (name : String) (hooks : Dict (Hook C R))
      → All IsEmpty hooks
      → All IsEmpty (insert name (new_hook name) hooks)
  unfolding insert new_hook
  insert-All name [] h = (refl, tt)
  insert-All name ((k, hook) ∷ hooks) h = elim (Bool-cases (str_eq k name)) [
    | inl e ↦ rw e (refl, h.1)
    | inr e ↦ rw e (h.0, insert-All name hooks h.1)
  ]

  builtin-All :
      (names : List String) (hooks : Dict (Hook C R))
      → All IsEmpty hooks
      → All IsEmpty (register_builtin_hooks names hooks)
  unfolding register_builtin_hooks
  builtin-All [] hooks h = h
  builtin-All (name ∷ names) hooks h =
      builtin-All names (insert name (new_hook name) hooks) (insert-All name hooks h)

  pub init-IsSilent : (builtin : List String) → IsSilent (init builtin)
  unfolding init lookup
  init-IsSilent builtin = (builtin-All builtin [] tt, λ name e. refl)

  unregister-All :
      (plugin : String) (hooks : Dict (Hook C R))
      → All IsEmpty hooks
      → All IsEmpty (unregister_plugin plugin hooks)
  unfolding unregister_plugin unregister
  unregister-All plugin [] h = tt
  unregister-All plugin ((k, hook) ∷ hooks) h = (rw h.0 refl, unregister-All plugin hooks h.1)

  unload-IsSilent :
      (name : String) (m : Manager C R) → IsSilent m → IsSilent (unload_plugin name m).0
  unfolding unload_plugin
  unload-IsSilent name m h = elim (Option-cases (lookup name m.plugins)) [
    | inl e ↦ rw (unload_plugin, e) h
    | inr (p, e) ↦
        rw (unload_plugin, e)
          (
            unregister-All name m.registry h.0,
            λ j gone. rw (lookup-erase name j m.metadata) (elim (Bool-cases (str_eq name j)) [
              | inl same ↦ rw same refl
              | inr other ↦ rw other (h.1 j (rw (lookup-erase name j m.plugins, other) at gone))
            ]),
          )
  ]

  -- A plugin that is being loaded has no metadata yet, so that no hook is registered.
  start-IsSilent :
      (name : String) (meta : Metadata) (c : C) (start : Start C R) (m : Manager C R)
      → lookup name m.plugins ≡ none
      → IsSilent m
      → IsSilent (start_plugin name meta c start m).0
  unfolding start_plugin add_module add_context
  start-IsSilent name meta c no_module m absent h = h
  start-IsSilent name meta c no_class m absent h = h
  start-IsSilent name meta c raises m absent h = h
  start-IsSilent name meta c (starts method) m absent h =
      rw (register_plugin_hooks, h.1 name absent, add_plugin)
        (
          h.0,
          λ j gone. elim (Bool-cases (str_eq name j)) [
            | inl same ↦ absurd (
                cc (
                  rw
                    (
                      lookup-insert name j (record { metadata = meta; method = method }) m.plugins,
                      same,
                    )
                    at gone))
            | inr other ↦
                rw (lookup-insert name j meta m.metadata, other)
                  (h.1 j (
                    rw
                      (
                        lookup-insert name j (record { metadata = meta; method = method })
                            m.plugins,
                        other,
                      )
                      at gone))
          ],
        )

  absent-may_load :
      (version_ok : String → Bool) (name : String) (meta : Metadata) (m : Manager C R)
      → may_load version_ok name meta m ≡ true
      → lookup name m.plugins ≡ none
  unfolding may_load
  absent-may_load version_ok name meta m may = elim (Option-cases (lookup name m.plugins)) [
    | inl e ↦ e
    | inr (p, e) ↦ absurd (ground (arith, e, may))
  ]

  load-IsSilent :
      (version_ok : String → Bool) (name : String) (meta : Metadata) (c : C) (start : Start C R)
      (m : Manager C R)
      → IsSilent m
      → IsSilent (load_plugin version_ok name meta c start m).0
  unfolding load_plugin
  load-IsSilent version_ok name meta c start m h =
      elim (Bool-cases (may_load version_ok name meta m)) [
        | inl may ↦
            rw (load_plugin, may)
              (start-IsSilent name meta c start m (absent-may_load version_ok name meta m may) h)
        | inr not_may ↦ rw (load_plugin, not_may) h
      ]

  apply-IsSilent :
      (version_ok : String → Bool) (op : Op C R) (m : Manager C R)
      → IsSilent m
      → IsSilent (apply version_ok op m)
  unfolding apply reload_plugin
  apply-IsSilent version_ok (loads name meta c start) m h =
      load-IsSilent version_ok name meta c start m h
  apply-IsSilent version_ok (reloads name meta c start) m h =
      load-IsSilent version_ok name meta c start (unload_plugin name m).0 (unload-IsSilent name m h)
  apply-IsSilent version_ok (unloads name) m h = unload-IsSilent name m h

  run-IsSilent :
      (version_ok : String → Bool) (ops : List (Op C R)) (m : Manager C R)
      → IsSilent m
      → IsSilent (run version_ok ops m)
  unfolding run
  run-IsSilent version_ok [] m h = h
  run-IsSilent version_ok (op ∷ ops) m h =
      run-IsSilent version_ok ops (apply version_ok op m) (apply-IsSilent version_ok op m h)

  fire_hook_name-All :
      (name : String) (c : C) (hooks : Dict (Hook C R))
      → All IsEmpty hooks
      → fire_hook_name name c hooks ≡ []
  unfolding fire_hook_name lookup fire fire_each
  fire_hook_name-All name c [] h = refl
  fire_hook_name-All name c ((k, hook) ∷ hooks) h = elim (Bool-cases (str_eq k name)) [
    | inl e ↦ rw (fire_hook_name, lookup, e, fire, h.0) refl
    | inr e ↦ rw (fire_hook_name, lookup, e) (fire_hook_name-All name c hooks h.1)
  ]

  fire_for_each-All :
      (merge : String → C → C) (empty : C) (name : String) (ps : Dict (Plugin C R))
      (m : Manager C R)
      → All IsEmpty m.registry
      → fire_for_each merge empty name ps m ≡ []
  unfolding fire_for_each
  fire_for_each-All merge empty name [] m h = refl
  fire_for_each-All merge empty name ((k, p) ∷ ps) m h =
      rw
        (
          fire_hook_name-All name
              (merge k (elim (lookup k m.contexts) [ none ↦ empty | some c ↦ c ])) m.registry h,
          fire_for_each-All merge empty name ps m h,
        )
        refl

  -- Whatever plugins are loaded, reloaded and unloaded, and whatever methods for hooks they have:
  -- firing any hook calls no handler and gives no result, since `_load_plugin` registers a plugin's
  -- hooks by its metadata before it stores that metadata.
  pub fire_hook-run :
      (version_ok : String → Bool) (merge : String → C → C) (empty : C) (builtin : List String)
      (ops : List (Op C R)) (name : String)
      → fire_hook merge empty name (run version_ok ops (init builtin)) ≡ []
  unfolding fire_hook
  fire_hook-run version_ok merge empty builtin ops name =
      let m = run version_ok ops (init builtin) in
      fire_for_each-All merge empty name m.plugins m
        (run-IsSilent version_ok ops (init builtin) (init-IsSilent builtin)).0
