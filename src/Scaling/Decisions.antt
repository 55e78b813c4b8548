-- ===== src/Scaling/Decisions.antt =====
-- What a decision of the scaler keeps to.
use comfyui_engine.Prelude.{
  ℕ, ◌+◌, ◌*◌, ◌≡◌, ◌≤◌, ◌<◌, refl, inl, inr, arith, Bool, true, ◌&&◌, ltb, leb, Bool-cases,
}
use comfyui_engine.Scaling.AutoScaler.{
  Action, scale_up, scale_down, maintain, emergency_scale_up, Scaler, has_cooled, can_grow,
  can_shrink, grow_by, make_decision, count_idle_nodes,
}

-- What a target keeps to, by the action that is decided.
abbrev pub Keeps : ℕ → ℕ → ℕ → Scaler → ℕ → Action → Type 0
Keeps now queue_depth nodes s target scale_up =
    (target ≡ nodes + 1)
    × (target ≤ s.policy.max_nodes)
    × (s.last_scale_up + s.policy.scale_up_cooldown < now)
Keeps now queue_depth nodes s target emergency_scale_up =
    (nodes < target)
    × (target ≤ nodes + 3)
    × (target ≤ s.policy.max_nodes)
    × (s.last_scale_up + s.policy.scale_up_cooldown < now)
Keeps now queue_depth nodes s target scale_down =
    (target + 1 ≡ nodes)
    × (s.policy.min_nodes ≤ target)
    × (s.last_scale_down + s.policy.scale_down_cooldown < now)
    × (queue_depth ≡ 0)
    × (0 < count_idle_nodes now s)
Keeps now queue_depth nodes s target maintain = target ≡ nodes

can_grow-bounds :
    (now nodes : ℕ) (s : Scaler) (b : Bool)
    → (b && can_grow now nodes s) ≡ true
    → (nodes < s.policy.max_nodes) × (s.last_scale_up + s.policy.scale_up_cooldown < now)
unfolding can_grow has_cooled
can_grow-bounds now nodes s b h = (ground (arith, h), ground (arith, h))

can_shrink-bounds :
    (now queue_depth nodes : ℕ) (s : Scaler)
    → can_shrink now queue_depth nodes s ≡ true
    → (queue_depth ≡ 0)
      × (s.policy.min_nodes < nodes)
      × (s.last_scale_down + s.policy.scale_down_cooldown < now)
      × (0 < count_idle_nodes now s)
unfolding can_shrink has_cooled
can_shrink-bounds now queue_depth nodes s h =
    (ground (arith, h), ground (arith, h), ground (arith, h), ground (arith, h))

-- Whatever the metrics are: a decision to grow is past its cooldown and targets one more node, or up
-- to three in an emergency, and no more than the most nodes; a decision to shrink is past its
-- cooldown, with an empty queue and an idle node, and targets one node less, and no fewer than the
-- fewest nodes; and a decision to maintain leaves the number of nodes as it is, even where it lies
-- outside the bounds.
pub make_decision-Keeps :
    (now queue_depth avg_wait_time nodes : ℕ) (s : Scaler)
    → Keeps now queue_depth nodes s
        (make_decision now queue_depth avg_wait_time nodes s).target_nodes
        (make_decision now queue_depth avg_wait_time nodes s).action
unfolding make_decision grow_by
make_decision-Keeps now q w nodes s =
    elim (Bool-cases (ltb (s.policy.scale_up_queue_depth * 3) q && can_grow now nodes s)) [
      | inl e ↦
          (let b = can_grow-bounds now nodes s (ltb (s.policy.scale_up_queue_depth * 3) q) e in
            rw (make_decision, e) (omega (arith, b.0), omega arith, omega arith, b.1))
      | inr e ↦ elim (Bool-cases (leb s.policy.scale_up_queue_depth q && can_grow now nodes s)) [
        | inl f ↦
            (let b = can_grow-bounds now nodes s (leb s.policy.scale_up_queue_depth q) f in
              rw (make_decision, e, f) (omega (arith, b.0), omega arith, b.1))
        | inr f ↦ elim (Bool-cases (leb s.policy.scale_up_wait_time w && can_grow now nodes s)) [
          | inl g ↦
              (let b = can_grow-bounds now nodes s (leb s.policy.scale_up_wait_time w) g in
                rw (make_decision, e, f, g) (omega (arith, b.0), omega arith, b.1))
          | inr g ↦ elim (Bool-cases (can_shrink now q nodes s)) [
            | inl h ↦
                (let b = can_shrink-bounds now q nodes s h in
                  rw (make_decision, e, f, g, h)
                    (omega (arith, b.1), omega (arith, b.1), b.2, b.0, b.3))
            | inr h ↦ rw (make_decision, e, f, g, h) refl
          ]
        ]
      ]
    ]
