-- ===== src/Scaling/Pools.antt =====
-- The bounds of node pools.
use comfyui_engine.Prelude.{
  ℕ, ◌≡◌, ◌≤◌, refl, sym, ◌∙◌, inl, inr, arith, some, List, [], ◌∷◌, String, ◌==◌, str_eq, eq_iff,
  Dict, lookup, lookup-insert, Bool-cases, Option-cases,
}
use comfyui_engine.Scaling.Gpu.{
  Pool, Decision, Scaler, get_or, nodes_of, get_scaling_decision, is_maintain, set_nodes, clamp,
  apply_scaling_decision, scale_each, scaling_loop, first_nodes, init,
}

-- Every pool's bounds are in order.
abbrev pub AreBounds : Dict Pool → Type 0
AreBounds pools =
    (name : String) (p : Pool) → lookup name pools ≡ some p → p.min_nodes ≤ p.max_nodes

-- Every pool has at least its fewest and at most its most nodes.
abbrev pub IsBounded : Scaler → Type 0
IsBounded s =
    (name : String) (p : Pool)
    → lookup name s.node_pools ≡ some p
    → (p.min_nodes ≤ nodes_of name p s) × (nodes_of name p s ≤ p.max_nodes)

clamp-bounds :
    (n : ℕ) (p : Pool)
    → p.min_nodes ≤ p.max_nodes
    → (p.min_nodes ≤ clamp n p) × (clamp n p ≤ p.max_nodes)
unfolding clamp
clamp-bounds n p le = (omega (arith, le), omega (arith, le))

set_nodes-IsBounded :
    (now : ℕ) (name : String) (n : ℕ) (d : Decision) (p : Pool) (s : Scaler)
    → lookup name s.node_pools ≡ some p
    → (p.min_nodes ≤ n) × (n ≤ p.max_nodes)
    → IsBounded s
    → IsBounded (set_nodes now name n d s)
unfolding set_nodes nodes_of get_or
set_nodes-IsBounded now name n d p s e within h j q f =
    rw (lookup-insert name j n s.current_nodes) (elim (Bool-cases (str_eq name j)) [
      | inl same ↦
          (let one : p ≡ q = cc (e, f, (eq_iff name j).0 same) in rw (same, sym one) within)
      | inr other ↦ rw other (h j q f)
    ])

-- A change keeps the pools, and their bounds.
apply-IsBounded :
    (now : ℕ) (name : String) (d : Decision) (s : Scaler)
    → AreBounds s.node_pools
    → IsBounded s
    → ((apply_scaling_decision now name d s).0.node_pools ≡ s.node_pools)
      × IsBounded (apply_scaling_decision now name d s).0
unfolding apply_scaling_decision
apply-IsBounded now name d s bounds h = elim (Bool-cases (is_maintain d.action)) [
  | inl stays ↦ rw (apply_scaling_decision, stays) (refl, h)
  | inr changes ↦ elim (Option-cases (lookup name s.node_pools)) [
    | inl e ↦ rw (apply_scaling_decision, changes, e) (refl, h)
    | inr (p, e) ↦ elim (Bool-cases (clamp d.target_nodes p == nodes_of name p s)) [
      | inl same ↦ rw (apply_scaling_decision, changes, e, same) (refl, h)
      | inr other ↦
          rw (apply_scaling_decision, changes, e, other)
            (
              refl,
              set_nodes-IsBounded now name (clamp d.target_nodes p) d p s e
                  (clamp-bounds d.target_nodes p (bounds name p e)) h,
            )
    ]
  ]
]

scale_each-IsBounded :
    (now : ℕ) (loads : String → ℕ) (ps : Dict Pool) (s : Scaler)
    → AreBounds s.node_pools
    → IsBounded s
    → ((scale_each now loads ps s).node_pools ≡ s.node_pools)
      × IsBounded (scale_each now loads ps s)
unfolding scale_each
scale_each-IsBounded now loads [] s bounds h = (refl, h)
scale_each-IsBounded now loads ((name, p) ∷ ps) s bounds h =
    let d = get_scaling_decision now (loads name) name s in
    let a = apply-IsBounded now name d s bounds h in
    let next = (apply_scaling_decision now name d s).0 in
    let rest = scale_each-IsBounded now loads ps next (rw a.0 bounds) a.1 in (rest.0 ∙ a.0, rest.1)

lookup-first_nodes :
    (name : String) (p : Pool) (pools : Dict Pool)
    → lookup name pools ≡ some p
    → lookup name (first_nodes pools) ≡ some p.min_nodes
unfolding lookup first_nodes
lookup-first_nodes name p [] e = absurd (ground (arith, e))
lookup-first_nodes name p ((k, q) ∷ pools) e = elim (Bool-cases (str_eq k name)) [
  | inl same ↦ (let one : q ≡ p = cc (rw (lookup, same) at e) in rw (lookup, same, one) refl)
  | inr other ↦ rw (lookup, other) (lookup-first_nodes name p pools (rw (lookup, other) at e))
]

-- A new scaler has the fewest nodes in every pool.
pub init-IsBounded : (pools : Dict Pool) → AreBounds pools → IsBounded (init pools)
unfolding init nodes_of get_or
init-IsBounded pools bounds name p e =
    rw (lookup-first_nodes name p pools e) (omega arith, bounds name p e)

-- Whatever loads the pools report, in any rounds of the loop, the nodes of every pool stay between
-- its fewest and its most nodes.
pub scaling_loop-IsBounded :
    (rounds : List (ℕ × (String → ℕ))) (s : Scaler)
    → AreBounds s.node_pools
    → IsBounded s
    → IsBounded (scaling_loop rounds s)
unfolding scaling_loop
scaling_loop-IsBounded [] s bounds h = h
scaling_loop-IsBounded ((now, loads) ∷ rounds) s bounds h =
    let r = scale_each-IsBounded now loads s.node_pools s bounds h in
    scaling_loop-IsBounded rounds (scale_each now loads s.node_pools s) (rw r.0 bounds) r.1
