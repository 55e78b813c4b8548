-- ===== src/Bus/Event/Delivery.antt =====
-- Who receives an event.
use comfyui_engine.Prelude.{
  ◌≡◌, refl, ◌∙◌, ap, inl, inr, Bool-cases, Bool, List, [], ◌∷◌, ◌++◌, String, lookup,
  lookup-insert, str_eq, append_assoc, map, if◌then◌else◌,
}
use comfyui_engine.Bus.Event.{Bus, of_type, subscribe, receivers, call_each, publish}

module _ {H : Type 0} where
  call_each-heads :
      (succeeds : H → Bool) (fns : List H) → map (λ p. p.0) (call_each succeeds fns) ≡ fns
  unfolding call_each
  call_each-heads succeeds [] = refl
  call_each-heads succeeds (fn ∷ fns) = ap (◌∷◌ fn) (call_each-heads succeeds fns)

  -- Whichever handlers raise, an event published after a subscription to its type is given, once
  -- each and in this order, to the handlers of its type that were there, to the new one, and to
  -- those of every type; an event of another type is given to the same handlers as before.
  publish-subscribe :
      (succeeds : H → Bool) (t other : String) (fn : H) (bus : Bus H)
      → map (λ p. p.0) (publish succeeds other (subscribe t fn bus)) ≡ (
          if str_eq t other
          then of_type (lookup t bus.handlers) ++ fn ∷ bus.global_handlers
          else map (λ p. p.0) (publish succeeds other bus))
  unfolding publish subscribe receivers
  publish-subscribe succeeds t other fn bus = elim (Bool-cases (str_eq t other)) [
    | inl same ↦ rw same (
        call_each-heads succeeds _
        ∙ rw (lookup-insert t other (of_type (lookup t bus.handlers) ++ fn ∷ []) bus.handlers) (
            rw same (append_assoc (of_type (lookup t bus.handlers)) (fn ∷ []) bus.global_handlers)))
    | inr ne ↦ rw ne (
        rw (lookup-insert t other (of_type (lookup t bus.handlers) ++ fn ∷ []) bus.handlers)
          (rw ne refl))
  ]
