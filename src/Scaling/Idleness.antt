-- ===== src/Scaling/Idleness.antt =====
-- The scaler on the status that the cluster reports.
use comfyui_engine.Prelude.{
  ℕ, ◌≡◌, ◌<◌, refl, arith, Bool, Option, none, some, List, [], ◌∷◌, String, Dict, lookup, values,
  length,
}
use comfyui_engine.Scaling.Nodes.{Node, available_nodes, get_cluster_status}
use comfyui_engine.Scaling.AutoScaler.{
  Instance, Scaler, maintain, get_or_zero, get_cluster_metrics, count_idle_nodes, can_shrink,
  make_decision, execute, evaluate_scaling,
}

-- A round of the monitor: the time, what the provider answers, and the nodes of the cluster, none
-- where there is no coordinator or its status raises an error.
pub record Round : Type 0 where
  pub now : ℕ
  pub launch : ℕ → Option Instance
  pub terminate : String → Bool
  pub nodes : Option (List Node)

unfoldable pub status_of : ℕ → Option (List Node) → Option (Dict ℕ)
unfolding get_cluster_status
status_of now none = none
status_of now (some nodes) = some (get_cluster_status now nodes)

unfoldable pub run : List Round → Scaler → Scaler
unfolding evaluate_scaling status_of
run [] s = s
run (r ∷ rs) s = run rs (evaluate_scaling r.now r.launch r.terminate (status_of r.now r.nodes) s)

-- Without queued jobs and waiting, a scaler without instances has nothing to do.
make_decision-idle :
    (now nodes : ℕ) (s : Scaler)
    → s.instances ≡ []
    → 0 < s.policy.scale_up_queue_depth
    → 0 < s.policy.scale_up_wait_time
    → (make_decision now 0 0 nodes s).action ≡ maintain
unfolding make_decision can_shrink count_idle_nodes values
make_decision-idle now nodes s empty queue wait = rw empty (ground (arith, queue, wait))

evaluate_idle :
    (now : ℕ) (launch : ℕ → Option Instance) (terminate : String → Bool)
    (nodes : Option (List Node)) (s : Scaler)
    → s.instances ≡ []
    → 0 < s.policy.scale_up_queue_depth
    → 0 < s.policy.scale_up_wait_time
    → evaluate_scaling now launch terminate (status_of now nodes) s ≡ s
unfolding evaluate_scaling status_of get_cluster_metrics get_cluster_status get_or_zero lookup
    execute
evaluate_idle now launch terminate none s empty queue wait = refl
evaluate_idle now launch terminate (some nodes) s empty queue wait =
    rw (make_decision-idle now (length (available_nodes now nodes)) s empty queue wait) refl

-- The scaler and the cluster together: in any sequence of rounds, on any nodes, a scaler that starts
-- without instances and has positive thresholds never launches one. It looks for the queue's length
-- and the waiting time in the status of the cluster, which has neither, and so reads 0 for both.
pub run_idle :
    (rounds : List Round) (s : Scaler)
    → s.instances ≡ []
    → 0 < s.policy.scale_up_queue_depth
    → 0 < s.policy.scale_up_wait_time
    → run rounds s ≡ s
unfolding run
run_idle [] s empty queue wait = refl
run_idle (r ∷ rs) s empty queue wait =
    rw (evaluate_idle r.now r.launch r.terminate r.nodes s empty queue wait)
      (run_idle rs s empty queue wait)
