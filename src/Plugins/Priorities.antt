-- ===== src/Plugins/Priorities.antt =====
-- The order in which a hook calls its handlers.
use comfyui_engine.Prelude.{
  ℕ, ◌≡◌, ◌≤◌, refl, ◌∙◌, inl, inr, arith, List, [], ◌∷◌, ◌++◌, String, All, keep, ltb, ◌==◌,
  Bool-cases, keep-append, append_assoc, append-nil,
}
use comfyui_engine.Plugins.Hooks.{Handler, Hook, insert_handler, sort_handlers, register, new_hook}

module _ {C R : Type 0} where
  -- The handlers are registered one after the other.
  unfoldable pub register_all : List (Handler C R) → Hook C R → Hook C R
  unfolding register
  register_all [] hook = hook
  register_all (h ∷ hs) hook = register_all hs (register h hook)

  -- Every handler comes before those of a higher number.
  abbrev pub IsSorted : List (Handler C R) → Type 0
  IsSorted [] = Unit
  IsSorted (h ∷ hs) = All (λ k. h.priority ≤ k.priority) hs × IsSorted hs

  -- The handlers of one priority.
  abbrev pub of_priority : ℕ → List (Handler C R) → List (Handler C R)
  of_priority n hs = keep (λ h. h.priority == n) hs

  of_priority-insert_handler :
      (n : ℕ) (h : Handler C R) (ks : List (Handler C R))
      → of_priority n (insert_handler h ks) ≡ of_priority n (h ∷ ks)
  unfolding insert_handler
  of_priority-insert_handler n h [] = refl
  of_priority-insert_handler n h (k ∷ ks) = ground (arith, of_priority-insert_handler n h ks)

  of_priority-sort_handlers :
      (n : ℕ) (hs : List (Handler C R)) → of_priority n (sort_handlers hs) ≡ of_priority n hs
  unfolding sort_handlers
  of_priority-sort_handlers n [] = refl
  of_priority-sort_handlers n (h ∷ hs) =
      of_priority-insert_handler n h (sort_handlers hs)
      ∙ ground (arith, of_priority-sort_handlers n hs)

  All-insert_handler :
      (b : ℕ) (h : Handler C R) (ks : List (Handler C R))
      → b ≤ h.priority
      → All (λ k. b ≤ k.priority) ks
      → All (λ k. b ≤ k.priority) (insert_handler h ks)
  unfolding insert_handler
  All-insert_handler b h [] le all_le = (le, tt)
  All-insert_handler b h (k ∷ ks) le all_le = elim (Bool-cases (ltb k.priority h.priority)) [
    | inl e ↦ rw (insert_handler, e) (all_le.0, All-insert_handler b h ks le all_le.1)
    | inr e ↦ rw (insert_handler, e) (le, all_le)
  ]

  All-weaken :
      (a b : ℕ) (ks : List (Handler C R))
      → a ≤ b
      → All (λ k. b ≤ k.priority) ks
      → All (λ k. a ≤ k.priority) ks
  All-weaken a b [] le h = tt
  All-weaken a b (k ∷ ks) le h = (omega (arith, le, h.0), All-weaken a b ks le h.1)

  insert_handler-IsSorted :
      (h : Handler C R) (ks : List (Handler C R)) → IsSorted ks → IsSorted (insert_handler h ks)
  unfolding insert_handler
  insert_handler-IsSorted h [] sorted = (tt, tt)
  insert_handler-IsSorted h (k ∷ ks) sorted = elim (Bool-cases (ltb k.priority h.priority)) [
    | inl e ↦
        rw (insert_handler, e)
          (
            All-insert_handler k.priority h ks (ground (arith, e)) sorted.0,
            insert_handler-IsSorted h ks sorted.1,
          )
    | inr e ↦
        rw (insert_handler, e)
          (
            (ground (arith, e), All-weaken h.priority k.priority ks (ground (arith, e)) sorted.0),
            sorted,
          )
  ]

  sort_handlers-IsSorted : (hs : List (Handler C R)) → IsSorted (sort_handlers hs)
  unfolding sort_handlers
  sort_handlers-IsSorted [] = tt
  sort_handlers-IsSorted (h ∷ hs) =
      insert_handler-IsSorted h (sort_handlers hs) (sort_handlers-IsSorted hs)

  register_all-IsSorted :
      (hs : List (Handler C R)) (hook : Hook C R)
      → IsSorted hook.handlers
      → IsSorted (register_all hs hook).handlers
  unfolding register_all register
  register_all-IsSorted [] hook h = h
  register_all-IsSorted (x ∷ hs) hook h =
      register_all-IsSorted hs (register x hook) (sort_handlers-IsSorted (hook.handlers ++ x ∷ []))

  of_priority-register_all :
      (n : ℕ) (hs : List (Handler C R)) (hook : Hook C R)
      → of_priority n (register_all hs hook).handlers ≡ of_priority n (hook.handlers ++ hs)
  unfolding register_all register
  of_priority-register_all n [] hook = rw (append-nil hook.handlers) refl
  of_priority-register_all n (x ∷ hs) hook =
      of_priority-register_all n hs (register x hook)
      ∙ rw
          (
            keep-append (λ h. h.priority == n) (sort_handlers (hook.handlers ++ x ∷ [])) hs,
            of_priority-sort_handlers n (hook.handlers ++ x ∷ []),
            keep-append (λ h. h.priority == n) hook.handlers (x ∷ []),
            keep-append (λ h. h.priority == n) hook.handlers (x ∷ hs),
            append_assoc (of_priority n hook.handlers) (of_priority n (x ∷ [])) (of_priority n hs),
          )
          (elim (Bool-cases (x.priority == n)) [ inl e ↦ rw e refl | inr e ↦ rw e refl ])

  -- Handlers that are registered on a new hook, in any order and with any priorities, are called in
  -- the order of their priorities, and those of one priority in the order of their registration,
  -- each as often as it was registered.
  register_all_lem :
      (name : String) (hs : List (Handler C R))
      → IsSorted (register_all hs (new_hook name)).handlers
        × ((n : ℕ) → of_priority n (register_all hs (new_hook name)).handlers ≡ of_priority n hs)
  unfolding new_hook
  register_all_lem name hs = (
    register_all-IsSorted hs (new_hook name) tt,
    λ n. of_priority-register_all n hs (new_hook name),
  )
