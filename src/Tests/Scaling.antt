-- ===== src/Tests/Scaling.antt =====
-- Tests and instances for engine/auto_scaler.py and engine/cluster_manager.py.
use comfyui_engine.Prelude.{
  ℕ, ◌≡◌, refl, arith, true, Option, none, some, List, [], ◌∷◌, String, Dict, lookup, insert,
}
use comfyui_engine.Scaling.Nodes.{healthy, Node, Job, filter_nodes, reassign}
use comfyui_engine.Scaling.AutoScaler.{Policy, Instance, Scaler, make_decision}
use comfyui_engine.Scaling.Decisions.{Keeps, make_decision-Keeps}
use comfyui_engine.Scaling.Gpu.{Pool, init, scaling_loop}
use comfyui_engine.Scaling.Pools.{AreBounds, IsBounded, init-IsBounded, scaling_loop-IsBounded}
use comfyui_engine.Scaling.Idleness.{Round, run, run_idle}

abbrev policy : Policy
policy = record {
  scale_up_queue_depth = 10;
  scale_up_wait_time = 60;
  scale_down_idle_time = 300;
  min_nodes = 1;
  max_nodes = 10;
  scale_up_cooldown = 120;
  scale_down_cooldown = 600;
}

abbrev scaler : Scaler
scaler = record { policy = policy; instances = []; last_scale_up = 0; last_scale_down = 0 }

abbrev node : Node
node = record {
  node_id = "n1";
  status = healthy;
  gpu_count = 1;
  gpu_memory_mb = 8192 ∷ [];
  supported_dtypes = "fp32" ∷ [];
  current_jobs = 1;
  max_jobs = 2;
  last_heartbeat = 1000;
  available_models = "sdxl" ∷ [];
  tags = [];
}

abbrev job : Job
job = record {
  job_id = "j1";
  required_models = "sdxl" ∷ [];
  required_tags = [];
  min_gpu_memory_mb = 4096;
  preferred_dtype = "fp16";
  assigned_node = some "n1";
  status = "running";
  error = none;
  retry_count = 2;
  max_retries = 3;
}

is_eligible_node : filter_nodes (node ∷ []) job ≡ node ∷ []
unfolding filter_nodes
is_eligible_node = refl

last_retry_fails : (reassign "lost" job).status ≡ "failed"
unfolding reassign
last_retry_fails = refl

deep_queue_grows : (make_decision 1000 12 0 2 scaler).target_nodes ≡ 3
unfolding make_decision
deep_queue_grows = refl

make_decision-Keeps_example :
    Keeps 1000 12 2 scaler
      (make_decision 1000 12 0 2 scaler).target_nodes
      (make_decision 1000 12 0 2 scaler).action
make_decision-Keeps_example = make_decision-Keeps 1000 12 0 2 scaler

abbrev instance_of : ℕ → Option Instance
instance_of i = some (record {
  instance_id = "i1";
  cost_per_hour = 1;
  status = "pending";
  launched_at = 1000;
  last_job_at = none;
})

abbrev rounds : List Round
rounds =
    record { now = 1001; launch = instance_of; terminate = λ id. true; nodes = some (node ∷ []) }
    ∷ record { now = 1031; launch = instance_of; terminate = λ id. true; nodes = none }
    ∷ []

run_idle_example : run rounds scaler ≡ scaler
run_idle_example = run_idle rounds scaler refl (omega arith) (omega arith)

abbrev pools : Dict Pool
pools =
    (
      "t4",
      record {
        min_nodes = 2;
        max_nodes = 4;
        target_utilization = 70;
        scale_up_cooldown = 120;
        scale_down_cooldown = 300;
      },
    )
    ∷ []

pools-AreBounds : AreBounds pools
unfolding lookup
pools-AreBounds name p e = ground (arith, e)

abbrev busy_rounds : List (ℕ × (String → ℕ))
busy_rounds = (1000, λ name. 99) ∷ (1030, λ name. 85) ∷ []

emergency_fills_pool : (scaling_loop busy_rounds (init pools)).current_nodes ≡ ("t4", 4) ∷ []
unfolding scaling_loop init lookup insert
emergency_fills_pool = refl

scaling_loop-IsBounded_example : IsBounded (scaling_loop busy_rounds (init pools))
unfolding init
scaling_loop-IsBounded_example =
    scaling_loop-IsBounded busy_rounds (init pools) pools-AreBounds
      (init-IsBounded pools pools-AreBounds)
