-- ===== src/Scaling/AutoScaler.antt =====
-- engine/auto_scaler.py: AutoScaler. Times are whole seconds and costs whole units. What the cloud
-- provider answers is an argument: the instances that its launches give, and whether it terminates.
-- Text of reasons and estimates of costs are left out.
use comfyui_engine.Prelude.{
  ℕ, zero, suc, ◌+◌, ◌-◌, ◌*◌, max, min, Bool, ◌&&◌, Option, none, some, List, [], ◌∷◌, String,
  take, ltb, leb, ◌==◌, str_eq, if◌then◌else◌, Dict, lookup, insert, values, keep, count_if,
}

pub data Action : Type 0 where
  scale_up scale_down maintain emergency_scale_up : Action

pub record Policy : Type 0 where
  pub scale_up_queue_depth : ℕ
  pub scale_up_wait_time : ℕ
  pub scale_down_idle_time : ℕ
  pub min_nodes : ℕ
  pub max_nodes : ℕ
  pub scale_up_cooldown : ℕ
  pub scale_down_cooldown : ℕ

pub record Instance : Type 0 where
  pub instance_id : String
  pub cost_per_hour : ℕ
  pub status : String
  pub launched_at : ℕ
  pub last_job_at : Option ℕ

pub record Scaler : Type 0 where
  pub policy : Policy
  pub instances : Dict Instance
  pub last_scale_up : ℕ
  pub last_scale_down : ℕ

pub record Decision : Type 0 where
  pub action : Action
  pub target_nodes : ℕ
  pub current_nodes : ℕ

-- What the scaler reads of the cluster.
pub record Metrics : Type 0 where
  pub queue_depth : ℕ
  pub avg_wait_time : ℕ
  pub active_nodes : ℕ

unfoldable pub get_or_zero : String → Dict ℕ → ℕ
unfolding lookup
get_or_zero key d = elim (lookup key d) [ none ↦ 0 | some n ↦ n ]

-- `_get_cluster_metrics`, of the status of the cluster; none where there is no coordinator.
unfoldable pub get_cluster_metrics : Option (Dict ℕ) → Option Metrics
unfolding get_or_zero
get_cluster_metrics none = none
get_cluster_metrics (some status) = some (record {
  queue_depth = get_or_zero "queue_length" status;
  avg_wait_time = get_or_zero "avg_wait_time" status;
  active_nodes = get_or_zero "nodes_total" status;
})

unfoldable pub is_running : Instance → Bool
is_running i = str_eq i.status "running"

-- `inst.last_job_at or inst.launched_at`
unfoldable pub last_active : Instance → ℕ
last_active i = elim i.last_job_at [
  | none ↦ i.launched_at
  | some t ↦ if ltb 0 t then t else i.launched_at
]

unfoldable pub is_idle : ℕ → ℕ → Instance → Bool
unfolding is_running last_active
is_idle now idle_time i = is_running i && ltb (last_active i + idle_time) now

-- `_count_idle_nodes`
unfoldable pub count_idle_nodes : ℕ → Scaler → ℕ
unfolding is_idle values
count_idle_nodes now s = count_if (is_idle now s.policy.scale_down_idle_time) (values s.instances)

unfoldable pub has_cooled : ℕ → ℕ → ℕ → Bool
has_cooled now last cooldown = ltb (last + cooldown) now

unfoldable pub can_grow : ℕ → ℕ → Scaler → Bool
unfolding has_cooled
can_grow now nodes s =
    has_cooled now s.last_scale_up s.policy.scale_up_cooldown && ltb nodes s.policy.max_nodes

unfoldable pub can_shrink : ℕ → ℕ → ℕ → Scaler → Bool
unfolding has_cooled count_idle_nodes
can_shrink now queue_depth nodes s =
    queue_depth == 0
    && ltb s.policy.min_nodes nodes
    && has_cooled now s.last_scale_down s.policy.scale_down_cooldown
    && ltb 0 (count_idle_nodes now s)

unfoldable pub grow_by : ℕ → Action → ℕ → Scaler → Decision
grow_by n action nodes s = record {
  action = action;
  target_nodes = min (nodes + n) s.policy.max_nodes;
  current_nodes = nodes;
}

-- `_make_decision`
unfoldable pub make_decision : ℕ → ℕ → ℕ → ℕ → Scaler → Decision
unfolding can_grow can_shrink grow_by
make_decision now queue_depth avg_wait_time nodes s =
    if ltb (s.policy.scale_up_queue_depth * 3) queue_depth && can_grow now nodes s
    then grow_by 3 emergency_scale_up nodes s
    else if leb s.policy.scale_up_queue_depth queue_depth && can_grow now nodes s
    then grow_by 1 scale_up nodes s
    else if leb s.policy.scale_up_wait_time avg_wait_time && can_grow now nodes s
    then grow_by 1 scale_up nodes s
    else if can_shrink now queue_depth nodes s
    then record {
      action = scale_down;
      target_nodes = max (nodes - 1) s.policy.min_nodes;
      current_nodes = nodes;
    }
    else record { action = maintain; target_nodes = nodes; current_nodes = nodes }

-- The launches of a decision: what the provider gives for the i-th, which may be nothing.
unfoldable pub launch_each : (ℕ → Option Instance) → ℕ → Dict Instance → Dict Instance
unfolding insert
launch_each launch zero d = d
launch_each launch (suc n) d =
    launch_each launch n (elim (launch n) [ none ↦ d | some i ↦ insert i.instance_id i d ])

-- `_scale_up` and `_emergency_scale_up`
unfoldable pub grow : ℕ → (ℕ → Option Instance) → Decision → Scaler → Scaler
unfolding launch_each
grow now launch d s = record s {
  instances = launch_each launch (d.target_nodes - d.current_nodes) s.instances;
  last_scale_up = now;
}

-- The stable sort by the last activity.
unfoldable pub insert_active : Instance → List Instance → List Instance
unfolding last_active
insert_active i [] = i ∷ []
insert_active i (j ∷ js) =
    let rest = insert_active i js in
    if ltb (last_active j) (last_active i) then j ∷ rest else i ∷ j ∷ js

unfoldable pub sort_active : List Instance → List Instance
unfolding insert_active
sort_active [] = []
sort_active (i ∷ is) = insert_active i (sort_active is)

unfoldable pub set_terminating : String → Dict Instance → Dict Instance
set_terminating id [] = []
set_terminating id ((k, i) ∷ d) =
    let rest = set_terminating id d in
    if str_eq i.instance_id id
    then (k, record i { status = "terminating" }) ∷ rest
    else (k, i) ∷ rest

unfoldable pub terminate_each : (String → Bool) → List Instance → Dict Instance → Dict Instance
unfolding set_terminating
terminate_each terminate [] d = d
terminate_each terminate (i ∷ is) d =
    terminate_each terminate is
      (if terminate i.instance_id then set_terminating i.instance_id d else d)

-- `_scale_down`
unfoldable pub shrink : ℕ → (String → Bool) → Decision → Scaler → Scaler
unfolding sort_active terminate_each is_running values
shrink now terminate d s = record s {
  instances =
      terminate_each terminate
        (take (d.current_nodes - d.target_nodes)
          (sort_active (keep is_running (values s.instances))))
        s.instances;
  last_scale_down = now;
}

unfoldable pub execute :
    ℕ → (ℕ → Option Instance) → (String → Bool) → Decision → Action → Scaler → Scaler
unfolding grow shrink
execute now launch terminate d scale_up s = grow now launch d s
execute now launch terminate d emergency_scale_up s = grow now launch d s
execute now launch terminate d scale_down s = shrink now terminate d s
execute now launch terminate d maintain s = s

-- `_evaluate_scaling`
unfoldable pub evaluate_scaling :
    ℕ → (ℕ → Option Instance) → (String → Bool) → Option (Dict ℕ) → Scaler → Scaler
unfolding get_cluster_metrics make_decision execute
evaluate_scaling now launch terminate status s = elim (get_cluster_metrics status) [
  | none ↦ s
  | some m ↦
      (let d = make_decision now m.queue_depth m.avg_wait_time m.active_nodes s in
        execute now launch terminate d d.action s)
]
