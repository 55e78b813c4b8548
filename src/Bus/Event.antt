-- ===== src/Bus/Event.antt =====
-- engine/events.py: publish and subscribe. A handler is a name here, and the bus only says which
-- handlers an event is given to; that a handler raises has no effect on the others.
pub mod Delivery
use comfyui_engine.Prelude.{
  Bool, Option, none, some, List, [], ◌∷◌, ◌++◌, String, Dict, lookup, insert,
}

pub record Bus (H : Type 0) : Type 0 where
  pub handlers : Dict (List H)
  pub global_handlers : List H

module _ {H : Type 0} where
  -- `self._handlers.get(t, [])`
  abbrev pub of_type : Option (List H) → List H
  of_type none = []
  of_type (some hs) = hs

  -- `setdefault(event_type, []).append(fn)`
  unfoldable pub subscribe : String → H → Bus H → Bus H
  subscribe t fn bus = record bus {
    handlers = insert t (of_type (lookup t bus.handlers) ++ fn ∷ []) bus.handlers;
  }

  unfoldable pub subscribe_all : H → Bus H → Bus H
  subscribe_all fn bus = record bus { global_handlers = bus.global_handlers ++ fn ∷ [] }

  receivers : String → Bus H → List H
  receivers t bus = of_type (lookup t bus.handlers) ++ bus.global_handlers

  call_each : (H → Bool) → List H → List (H × Bool)
  call_each succeeds [] = []
  call_each succeeds (fn ∷ fns) = (fn, succeeds fn) ∷ call_each succeeds fns

  -- `publish` of an event of a type: the handlers that are called, and whether each of them ended
  -- without raising, as the given function says.
  unfoldable pub publish : (H → Bool) → String → Bus H → List (H × Bool)
  unfolding receivers call_each
  publish succeeds t bus = call_each succeeds (receivers t bus)
