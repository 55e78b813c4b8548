-- ===== src/Scaling/Nodes.antt =====
-- engine/cluster_manager.py: the nodes of the cluster, the test of a job's requirements, the jobs of
-- a node that failed, and the status of the cluster. Times are whole seconds, and the nodes that
-- Redis holds are an argument.
use comfyui_engine.Prelude.{
  ℕ, ◌+◌, ◌*◌, ◌/◌, max, Bool, true, false, not, ◌&&◌, ◌||◌, Option, none, some, List, [], ◌∷◌,
  String, all, any, keep, count_if, length, ltb, leb, str_eq, if◌then◌else◌, Dict,
}

pub data NodeStatus : Type 0 where
  healthy busy degraded offline maintenance : NodeStatus

pub record Node : Type 0 where
  pub node_id : String
  pub status : NodeStatus
  pub gpu_count : ℕ
  pub gpu_memory_mb : List ℕ
  pub supported_dtypes : List String
  pub current_jobs : ℕ
  pub max_jobs : ℕ
  pub last_heartbeat : ℕ
  pub available_models : List String
  pub tags : List String

pub record Job : Type 0 where
  pub job_id : String
  pub required_models : List String
  pub required_tags : List String
  pub min_gpu_memory_mb : ℕ
  pub preferred_dtype : String
  pub assigned_node : Option String
  pub status : String
  pub error : Option String
  pub retry_count : ℕ
  pub max_retries : ℕ

unfoldable pub is_healthy : NodeStatus → Bool
is_healthy healthy = true
is_healthy _ = false

unfoldable pub is_busy : NodeStatus → Bool
is_busy busy = true
is_busy _ = false

-- `is_available`
unfoldable pub is_available : ℕ → Node → Bool
unfolding is_healthy is_busy
is_available now n =
    (is_healthy n.status || is_busy n.status)
    && ltb n.current_jobs n.max_jobs
    && ltb now (n.last_heartbeat + 30)

-- `_get_available_nodes`
unfoldable pub available_nodes : ℕ → List Node → List Node
unfolding is_available
available_nodes now nodes = keep (is_available now) nodes

unfoldable pub is_member : String → List String → Bool
is_member x ys = any (λ y. str_eq y x) ys

unfoldable pub maximum : ℕ → List ℕ → ℕ
maximum m [] = m
maximum m (n ∷ ns) = maximum (max m n) ns

unfoldable pub has_memory : ℕ → List ℕ → Bool
unfolding maximum
has_memory needed [] = true
has_memory needed (m ∷ ms) = leb needed (maximum m ms)

-- The tests of `_filter_nodes` on a node.
unfoldable pub is_eligible : Job → Node → Bool
unfolding has_memory is_member
is_eligible job n =
    if not (has_memory job.min_gpu_memory_mb n.gpu_memory_mb)
    then false
    else if not (all (λ m. is_member m n.available_models) job.required_models)
    then false
    else if not (all (λ t. is_member t n.tags) job.required_tags)
    then false
    else is_member job.preferred_dtype n.supported_dtypes || is_member "fp32" n.supported_dtypes

-- `_filter_nodes`
unfoldable pub filter_nodes : List Node → Job → List Node
unfolding is_eligible
filter_nodes nodes job = keep (is_eligible job) nodes

unfoldable pub is_assigned_to : String → Job → Bool
is_assigned_to node_id job = elim job.assigned_node [
  | none ↦ false
  | some id ↦ str_eq id node_id && (str_eq job.status "assigned" || str_eq job.status "running")
]

unfoldable pub reassign : String → Job → Job
reassign message job =
    if leb job.max_retries (job.retry_count + 1)
    then record job {
      assigned_node = none;
      status = "failed";
      retry_count = job.retry_count + 1;
      error = some message;
    }
    else record job { assigned_node = none; status = "pending"; retry_count = job.retry_count + 1 }

-- `_reassign_jobs`, with the text of the error.
unfoldable pub reassign_jobs : String → String → Dict Job → Dict Job
unfolding is_assigned_to reassign
reassign_jobs message node_id [] = []
reassign_jobs message node_id ((id, job) ∷ jobs) =
    let rest = reassign_jobs message node_id jobs in
    if is_assigned_to node_id job then (id, reassign message job) ∷ rest else (id, job) ∷ rest

unfoldable pub sum : (Node → ℕ) → List Node → ℕ
sum f [] = 0
sum f (n ∷ ns) = f n + sum f ns

-- `get_cluster_status`: its entries that are numbers, with the utilization in whole percent.
unfoldable pub get_cluster_status : ℕ → List Node → Dict ℕ
unfolding available_nodes is_healthy is_busy sum
get_cluster_status now all_nodes =
    let nodes = available_nodes now all_nodes in
    ("nodes_total", length nodes)
    ∷ ("nodes_healthy", count_if (λ n. is_healthy n.status) nodes)
    ∷ ("nodes_busy", count_if (λ n. is_busy n.status) nodes)
    ∷ ("total_gpus", sum (λ n. n.gpu_count) nodes)
    ∷ ("total_jobs", sum (λ n. n.current_jobs) nodes)
    ∷ ("total_capacity", sum (λ n. n.max_jobs) nodes)
    ∷ ("utilization", sum (λ n. n.current_jobs) nodes * 100 / max (sum (λ n. n.max_jobs) nodes) 1)
    ∷ []
