-- ===== src/Pool.antt =====
-- engine/worker_pool.py: a pool of worker processes. A slot's bridge is modelled by whether its
-- process runs; `start` of a bridge succeeds or raises, as an event says. Between two awaits the
-- code is one step: the begin of a call, its end, and the visit of a slot by the health monitor.
pub mod Load
use comfyui_engine.Prelude.{
  ℕ, zero, suc, ◌+◌, ◌-◌, Bool, true, false, ◌&&◌, Option, none, some, List, [], ◌∷◌, replicate,
  count_if, ltb, if◌then◌else◌,
}

pub record Slot : Type 0 where
  pub is_running : Bool
  pub pending : ℕ
  pub restarts : ℕ
  pub healthy : Bool

pub record Pool : Type 0 where
  pub max_restarts : ℕ
  pub slots : List Slot

-- `start`: every bridge runs.
unfoldable pub start : ℕ → ℕ → Pool
start size max_restarts = record {
  max_restarts = max_restarts;
  slots = replicate size (record { is_running = true; pending = 0; restarts = 0; healthy = true });
}

unfoldable pub is_alive : Slot → Bool
is_alive s = s.healthy && s.is_running

-- `min` by `pending` over the alive slots, the first of equal ones: its index and its load.
unfoldable pub least_loaded : List Slot → Option (ℕ × ℕ)
unfolding is_alive
least_loaded [] = none
least_loaded (s ∷ ss) =
    let rest = least_loaded ss in
    let later : Option (ℕ × ℕ) = elim rest [ none ↦ none | some r ↦ some (suc r.0, r.1) ] in
    if is_alive s
    then elim rest [
      | none ↦ some (0, s.pending)
      | some r ↦ if ltb r.1 s.pending then some (suc r.0, r.1) else some (0, s.pending)
    ]
    else later

-- `_pick_slot`; none stands for PoolExhaustedError.
unfoldable pub pick_slot : Pool → Option ℕ
unfolding least_loaded
pick_slot p = elim (least_loaded p.slots) [ none ↦ none | some r ↦ some r.0 ]

unfoldable pub update_slot : ℕ → (Slot → Slot) → List Slot → List Slot
update_slot i f [] = []
update_slot zero f (s ∷ ss) = f s ∷ ss
update_slot (suc i) f (s ∷ ss) = s ∷ update_slot i f ss

-- The steps of `call` before and after it awaits the bridge.
unfoldable pub begin_call : ℕ → Pool → Pool
unfolding update_slot
begin_call i p = record p {
  slots = update_slot i (λ s. record s { pending = s.pending + 1 }) p.slots;
}

unfoldable pub end_call : ℕ → Pool → Pool
unfolding update_slot
end_call i p = record p {
  slots = update_slot i (λ s. record s { pending = s.pending - 1 }) p.slots;
}

-- The visit of a slot by `_health_monitor`, where `ok` says whether a start would succeed.
unfoldable pub check_slot : ℕ → Bool → Slot → Slot
check_slot max_restarts ok s =
    if s.is_running
    then s
    else if ltb s.restarts max_restarts && ok
    then record s { is_running = true; restarts = s.restarts + 1; healthy = true }
    else record s { healthy = false }

unfoldable pub visit : ℕ → Bool → Pool → Pool
unfolding update_slot check_slot
visit i ok p = record p { slots = update_slot i (check_slot p.max_restarts ok) p.slots }

-- The process of a slot dies.
unfoldable pub die : ℕ → Pool → Pool
unfolding update_slot
die i p = record p { slots = update_slot i (λ s. record s { is_running = false }) p.slots }

unfoldable pub alive_count : Pool → ℕ
unfolding is_alive
alive_count p = count_if is_alive p.slots
