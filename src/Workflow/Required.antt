-- ===== src/Workflow/Required.antt =====
-- What the verdict of `validate` means for the class types in the workflow.
use comfyui_engine.Prelude.{
  ◌≡◌, refl, sym, ◌∙◌, inl, inr, arith, Bool, true, false, not, ◌||◌, none, some, List, [], ◌∷◌,
  String, str_eq, eq_iff, Dict, lookup, values, any, all, All, keep, ap, Bool-cases, Option-cases,
}
use comfyui_engine.Workflow.Nodes.{
  NodeType, unknown, type_name, same_type, node_type_map, detect_node_type, Input, NodeData,
  class_text, other_class, fields, other_inputs, not_a_dict, node, NodeInfo, node_info, is_type,
}
use comfyui_engine.Workflow.Validation.{
  dict, Warning, Result, workflow_empty, required_node_types, parse_nodes, parse_warnings, missing,
  result_of, validate_dict, validate, failed,
}
use comfyui_engine.Workflow.Mappings.{Purpose, purposes, collect, generate_mappings}
use comfyui_engine.Workflow.Totality.{is_sound, some_of, parse_nodes_returns, collect_returns}

lookup-type_name :
    (c : String) (d : Dict NodeType) (t : NodeType)
    → All (λ e. type_name e.1 ≡ e.0) d
    → lookup c d ≡ some t
    → type_name t ≡ c
unfolding lookup
lookup-type_name c [] t h e = ground (arith, e)
lookup-type_name c ((k, u) ∷ d) t h e =
    ground (arith, h.0, e, eq_iff k c, lookup-type_name c d t h.1)

lookup-missed :
    (c k : String) (d : Dict NodeType) (t : NodeType)
    → lookup c d ≡ none
    → lookup k d ≡ some t
    → str_eq c k ≡ false
lookup-missed c k d t e known = ground (arith, e, known, eq_iff c k)

-- The type that a class type is looked up as, in any table of types by their values.
same_type-lookup :
    (c : String) (t : NodeType) (d : Dict NodeType)
    → All (λ e. type_name e.1 ≡ e.0) d
    → str_eq (type_name unknown) (type_name t) ≡ false
    → lookup (type_name t) d ≡ some t
    → same_type (elim (lookup c d) [ none ↦ unknown | some u ↦ u ]) t ≡ str_eq c (type_name t)
unfolding same_type
same_type-lookup c t d h other known = elim (Option-cases (lookup c d)) [
  | inl e ↦ rw e (other ∙ sym (lookup-missed c (type_name t) d t e known))
  | inr (u, e) ↦ rw (e, lookup-type_name c d u h e) refl
]

node_type_map-All : All (λ e. type_name e.1 ≡ e.0) node_type_map
unfolding node_type_map type_name
node_type_map-All = (
  refl,
  (
    refl,
    (
      refl,
      (
        refl,
        (
          refl,
          (
            refl,
            (
              refl,
              (
                refl,
                (
                  refl,
                  (
                    refl,
                    (
                      refl,
                      (refl, (refl, (refl, (refl, (refl, (refl, (refl, (refl, (refl, tt))))))))),
                    ),
                  ),
                ),
              ),
            ),
          ),
        ),
      ),
    ),
  ),
)

-- A type other than the unknown one, with an entry in the table under its value.
abbrev pub IsKnown : NodeType → Type 0
IsKnown t =
    (str_eq (type_name unknown) (type_name t) ≡ false)
    × (str_eq "" (type_name t) ≡ false)
    × (lookup (type_name t) node_type_map ≡ some t)

module _ {V : Type 0} where
  -- A node of the workflow has the class type.
  unfoldable pub has_class : String → Dict (NodeData V) → Bool
  has_class c [] = false
  has_class c ((id, not_a_dict) ∷ w) = has_class c w
  has_class c ((id, node other_class inputs outputs) ∷ w) = has_class c w
  has_class c ((id, node (class_text k) inputs outputs) ∷ w) = str_eq k c || has_class c w

  is_type-node_info :
      (t : NodeType) (id c : String) (inputs : Dict (Input V)) (outputs : List String)
      → IsKnown t
      → is_type t (node_info id c inputs outputs) ≡ str_eq c (type_name t)
  unfolding is_type node_info detect_node_type
  is_type-node_info t id c inputs outputs h =
      same_type-lookup c t node_type_map node_type_map-All h.0 h.2

  any-parse_nodes :
      (t : NodeType) (w : Dict (NodeData V)) (ns : Dict (NodeInfo V))
      → IsKnown t
      → parse_nodes w ≡ some ns
      → any (is_type t) (values ns) ≡ has_class (type_name t) w
  unfolding parse_nodes has_class values
  any-parse_nodes t [] ns h e = (let empty : [] ≡ ns = cc e in rw (sym empty) refl)
  any-parse_nodes t ((id, not_a_dict) ∷ w) ns h e = any-parse_nodes t w ns h e
  any-parse_nodes t ((id, node other_class inputs outputs) ∷ w) ns h e = absurd (cc e)
  any-parse_nodes t ((id, node (class_text c) other_inputs outputs) ∷ w) ns h e =
      elim (Bool-cases (str_eq c "")) [
        | inl f ↦ ground (arith, h.1, f, eq_iff c "", any-parse_nodes t w ns h (rw f at e))
        | inr f ↦ absurd (cc (rw f at e))
      ]
  any-parse_nodes t ((id, node (class_text c) (fields inputs) outputs) ∷ w) ns h e =
      elim (Bool-cases (str_eq c "")) [
        | inl f ↦ ground (arith, h.1, f, eq_iff c "", any-parse_nodes t w ns h (rw f at e))
        | inr f ↦ elim (Option-cases (parse_nodes w)) [
          | inl g ↦ absurd (cc (rw (f, g) at e))
          | inr (ms, g) ↦
              (let is_ns : (id, node_info id c inputs outputs) ∷ ms ≡ ns = cc (rw (f, g) at e) in
                rw (sym is_ns) (
                  ap (λ b. b || any (is_type t) (values ms))
                    (is_type-node_info t id c inputs outputs h)
                  ∙ ap (λ b. str_eq c (type_name t) || b) (any-parse_nodes t w ms h g)))
        ]
      ]

module _ {A : Type 0} where
  none_kept :
      (p : A → Bool) (xs : List A)
      → elim (keep (λ x. not (p x)) xs) [ [] ↦ true | y ∷ ys ↦ false ] ≡ all p xs
  none_kept p [] = refl
  none_kept p (x ∷ xs) = ground (arith, none_kept p xs)

  all-cong : (p q : A → Bool) (xs : List A) → All (λ x. p x ≡ q x) xs → all p xs ≡ all q xs
  all-cong p q [] h = refl
  all-cong p q (x ∷ xs) h = ground (arith, h.0, all-cong p q xs h.1)

required_types-IsKnown : All IsKnown required_node_types
unfolding required_node_types type_name lookup node_type_map
required_types-IsKnown = (
  (refl, refl, refl),
  ((refl, refl, refl), ((refl, refl, refl), ((refl, refl, refl), ((refl, refl, refl), tt)))),
)

module _ {V : Type 0} where
  any-parse_each :
      (w : Dict (NodeData V)) (ns : Dict (NodeInfo V)) (ts : List NodeType)
      → parse_nodes w ≡ some ns
      → All IsKnown ts
      → All (λ t. any (is_type t) (values ns) ≡ has_class (type_name t) w) ts
  any-parse_each w ns [] e h = tt
  any-parse_each w ns (t ∷ ts) e h = (any-parse_nodes t w ns h.0 e, any-parse_each w ns ts e h.1)

  verdict :
      (w : Dict (NodeData V)) (ns : Dict (NodeInfo V)) (ws : List Warning)
      (ms : List (Purpose × String))
      → parse_nodes w ≡ some ns
      → (result_of ns ws ms).is_valid ≡ all (λ t. has_class (type_name t) w) required_node_types
  unfolding result_of missing
  verdict w ns ws ms e =
      none_kept (λ t. any (is_type t) (values ns)) required_node_types
      ∙ all-cong (λ t. any (is_type t) (values ns)) (λ t. has_class (type_name t) w)
          required_node_types (any-parse_each w ns required_node_types e required_types-IsKnown)

  -- `validate` returns on every workflow in which each node with a class type has a text as class type
  -- and a dictionary of inputs, of which neither "positive" nor "negative" is an empty list. The
  -- workflow is valid exactly where, for every required type, a node has its value as class type; an
  -- empty workflow is not.
  pub is_valid-eq-all :
      (w : Dict (NodeData V))
      → All (λ e. is_sound e.1 ≡ true) w
      → (r : Result V) × (validate (dict w) ≡ some r)
        × (r.is_valid ≡ all (λ t. has_class (type_name t) w) required_node_types)
  unfolding validate validate_dict generate_mappings purposes required_node_types has_class failed
  is_valid-eq-all [] sound = (failed workflow_empty, refl, refl)
  is_valid-eq-all (x ∷ w) sound =
      let (ns, e, filled) = parse_nodes_returns (x ∷ w) sound in
      let (ms, f) = some_of (collect ns purposes) (collect_returns ns filled purposes) in
      (
        result_of ns (parse_warnings (x ∷ w)) ms,
        rw (validate, validate_dict, e, generate_mappings, f) refl,
        verdict (x ∷ w) ns (parse_warnings (x ∷ w)) ms e,
      )
