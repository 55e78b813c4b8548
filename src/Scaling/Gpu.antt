-- ===== src/Scaling/Gpu.antt =====
-- engine/gpu_autoscaler.py: GPUAutoscaler. Times are whole seconds, and loads and utilizations whole
-- percents: the load score of a pool, which the code averages from its metrics, is an argument, and
-- so is `loads`, the score of each pool in a round of the loop. Costs and reports are left out.
use comfyui_engine.Prelude.{
  ℕ, ◌+◌, ◌-◌, min, max, Bool, true, false, Option, none, some, List, [], ◌∷◌, ◌++◌, String, ltb,
  leb, ◌==◌, if◌then◌else◌, Dict, lookup, insert,
}

pub data Action : Type 0 where
  scale_up scale_down maintain emergency_scale_up : Action

pub record Pool : Type 0 where
  pub min_nodes : ℕ
  pub max_nodes : ℕ
  pub target_utilization : ℕ
  pub scale_up_cooldown : ℕ
  pub scale_down_cooldown : ℕ

pub record Decision : Type 0 where
  pub action : Action
  pub current_nodes : ℕ
  pub target_nodes : ℕ

pub record Scaler : Type 0 where
  pub node_pools : Dict Pool
  pub current_nodes : Dict ℕ
  pub last_scale_time : Dict ℕ
  pub scaling_history : List Decision

unfoldable pub get_or : ℕ → Option ℕ → ℕ
get_or n none = n
get_or n (some k) = k

-- The nodes of a pool: the fewest where none are recorded.
unfoldable pub nodes_of : String → Pool → Scaler → ℕ
unfolding get_or lookup
nodes_of name p s = get_or p.min_nodes (lookup name s.current_nodes)

unfoldable pub scaled_at : String → Scaler → ℕ
unfolding get_or lookup
scaled_at name s = get_or 0 (lookup name s.last_scale_time)

unfoldable pub stay : ℕ → Decision
stay n = record { action = maintain; current_nodes = n; target_nodes = n }

-- The decision for a pool, of its load, the time of its last change and its nodes.
unfoldable pub decide : ℕ → ℕ → ℕ → ℕ → Pool → Decision
unfolding stay
decide now load last n p =
    if leb 95 load
    then record {
      action = emergency_scale_up;
      current_nodes = n;
      target_nodes = min (n + 3) p.max_nodes;
    }
    else if leb (p.target_utilization + 10) load
    then (if ltb now (last + p.scale_up_cooldown) then stay n else record {
      action = scale_up;
      current_nodes = n;
      target_nodes = min (n + 1) p.max_nodes;
    })
    else if leb (load + 20) p.target_utilization
    then (if ltb now (last + p.scale_down_cooldown) then stay n else record {
      action = scale_down;
      current_nodes = n;
      target_nodes = max (n - 1) p.min_nodes;
    })
    else stay n

-- `get_scaling_decision`
unfoldable pub get_scaling_decision : ℕ → ℕ → String → Scaler → Decision
unfolding lookup decide nodes_of scaled_at stay
get_scaling_decision now load name s = elim (lookup name s.node_pools) [
  | none ↦ stay 0
  | some p ↦ decide now load (scaled_at name s) (nodes_of name p s) p
]

unfoldable pub is_maintain : Action → Bool
is_maintain maintain = true
is_maintain _ = false

unfoldable pub set_nodes : ℕ → String → ℕ → Decision → Scaler → Scaler
unfolding insert
set_nodes now name n d s = record s {
  current_nodes = insert name n s.current_nodes;
  last_scale_time = insert name now s.last_scale_time;
  scaling_history = s.scaling_history ++ d ∷ [];
}

unfoldable pub clamp : ℕ → Pool → ℕ
clamp n p = max p.min_nodes (min n p.max_nodes)

-- `apply_scaling_decision`
unfoldable pub apply_scaling_decision : ℕ → String → Decision → Scaler → Scaler × Bool
unfolding is_maintain lookup clamp nodes_of set_nodes
apply_scaling_decision now name d s =
    if is_maintain d.action then (s, false) else elim (lookup name s.node_pools) [
      | none ↦ (s, false)
      | some p ↦
          if clamp d.target_nodes p == nodes_of name p s
          then (s, false)
          else (set_nodes now name (clamp d.target_nodes p) d s, true)
    ]

-- A round of `_scaling_loop`, over the pools.
unfoldable pub scale_each : ℕ → (String → ℕ) → Dict Pool → Scaler → Scaler
unfolding get_scaling_decision apply_scaling_decision
scale_each now loads [] s = s
scale_each now loads ((name, p) ∷ ps) s =
    scale_each now loads ps
      (apply_scaling_decision now name (get_scaling_decision now (loads name) name s) s).0

-- `_scaling_loop`, in rounds with their times.
unfoldable pub scaling_loop : List (ℕ × (String → ℕ)) → Scaler → Scaler
unfolding scale_each
scaling_loop [] s = s
scaling_loop ((now, loads) ∷ rounds) s = scaling_loop rounds (scale_each now loads s.node_pools s)

unfoldable pub first_nodes : Dict Pool → Dict ℕ
first_nodes [] = []
first_nodes ((name, p) ∷ ps) = (name, p.min_nodes) ∷ first_nodes ps

unfoldable pub first_times : Dict Pool → Dict ℕ
first_times [] = []
first_times ((name, p) ∷ ps) = (name, 0) ∷ first_times ps

unfoldable pub init : Dict Pool → Scaler
unfolding first_nodes first_times
init pools = record {
  node_pools = pools;
  current_nodes = first_nodes pools;
  last_scale_time = first_times pools;
  scaling_history = [];
}
