-- ===== src/Workflow/Validation.antt =====
-- engine/workflow_validator.py: `validate`, `validate_file` and `get_node_summary`. The order of
-- the required types, which the code keeps in a set, is that of their declaration. The keys of a
-- dictionary are distinct, so that the nodes are added in the order of the workflow.
use comfyui_engine.Prelude.{
  ℕ, ◌+◌, Bool, true, false, not, ◌||◌, ◌&&◌, Option, none, some, List, [], ◌∷◌, ◌++◌, String,
  length, ltb, str_eq, if◌then◌else◌, Dict, lookup, insert, values, keep, any, map,
}
use comfyui_engine.Workflow.Nodes.{
  NodeType, ksampler, empty_latent, clip_text_encode, checkpoint_loader, vae_decode, control_net,
  class_text, other_class, fields, other_inputs, NodeData, not_a_dict, node, NodeInfo, node_info,
  is_type, is_sampler, is_output, is_lora,
}
use comfyui_engine.Workflow.Mappings.{Purpose, generate_mappings}

pub data Error : Type 0 where
  workflow_not_a_dict workflow_empty : Error
  missing_required : NodeType → Error
  file_not_found invalid_json read_error : String → Error
  validation_raised : Error

pub data Warning : Type 0 where
  invalid_data_type missing_class_type no_output_connections : String → Warning
  no_connections : String → String → Warning
  clip_nodes_found : ℕ → Warning
  no_output_node no_lora_node : Warning

pub data Workflow (V : Type 0) : Type 0 where
  other_json : Workflow V
  dict : Dict (NodeData V) → Workflow V

pub record Result (V : Type 0) : Type 0 where
  pub is_valid : Bool
  pub errors : List Error
  pub warnings : List Warning
  pub nodes : Dict (NodeInfo V)
  pub suggested_mappings : List (Purpose × String)

unfoldable pub required_node_types : List NodeType
required_node_types =
    ksampler ∷ empty_latent ∷ clip_text_encode ∷ checkpoint_loader ∷ vae_decode ∷ []

unfoldable pub is_empty : List String → Bool
is_empty [] = true
is_empty (x ∷ xs) = false

module _ {V : Type 0} where
  unfoldable pub failed : Error → Result V
  failed e = record {
    is_valid = false;
    errors = e ∷ [];
    warnings = [];
    nodes = [];
    suggested_mappings = [];
  }

  -- Step 2, the nodes; none where it raises, as it does for inputs that are no dictionary
  -- (`AttributeError`). A class type that is no text raises a `TypeError`, here or in step 6.
  unfoldable pub parse_nodes : Dict (NodeData V) → Option (Dict (NodeInfo V))
  unfolding node_info
  parse_nodes [] = some []
  parse_nodes ((id, not_a_dict) ∷ w) = parse_nodes w
  parse_nodes ((id, node other_class inputs outputs) ∷ w) = none
  parse_nodes ((id, node (class_text c) other_inputs outputs) ∷ w) =
      let rest = parse_nodes w in if str_eq c "" then rest else none
  parse_nodes ((id, node (class_text c) (fields inputs) outputs) ∷ w) =
      let rest = parse_nodes w in
      if str_eq c ""
      then rest
      else elim rest [ none ↦ none | some ns ↦ some ((id, node_info id c inputs outputs) ∷ ns) ]

  -- Step 2, the warnings.
  unfoldable pub parse_warnings : Dict (NodeData V) → List Warning
  parse_warnings [] = []
  parse_warnings ((id, not_a_dict) ∷ w) = invalid_data_type id ∷ parse_warnings w
  parse_warnings ((id, node other_class inputs outputs) ∷ w) = parse_warnings w
  parse_warnings ((id, node (class_text c) inputs outputs) ∷ w) =
      let rest = parse_warnings w in if str_eq c "" then missing_class_type id ∷ rest else rest

  -- Step 3: REQUIRED_NODE_TYPES - node_types_found
  unfoldable pub missing : Dict (NodeInfo V) → List NodeType
  unfolding is_type required_node_types
  missing nodes = keep (λ t. not (any (is_type t) (values nodes))) required_node_types

  -- Steps 4 to 6.
  unfoldable pub count_warnings : List (NodeInfo V) → List Warning
  unfolding is_type is_output is_lora
  count_warnings ns =
      let clips = length (keep (is_type clip_text_encode) ns) in
      (if ltb clips 2 then clip_nodes_found clips ∷ [] else [])
      ++ (if any is_output ns then [] else no_output_node ∷ [])
      ++ (if any is_lora ns then [] else no_lora_node ∷ [])

  -- The first loop of `_validate_connections`.
  unfoldable pub is_orphan : NodeInfo V → Bool
  unfolding is_type is_output is_empty
  is_orphan n =
      is_empty n.connections
      && not (is_output n)
      && not (is_type checkpoint_loader n || is_type control_net n)

  -- The second loop: no node has the sampler among its connections.
  unfoldable pub is_dead_end : List (NodeInfo V) → NodeInfo V → Bool
  unfolding is_sampler
  is_dead_end ns n = is_sampler n && not (any (λ m. any (str_eq n.node_id) m.connections) ns)

  unfoldable pub connection_warnings : List (NodeInfo V) → List Warning
  unfolding is_orphan is_dead_end
  connection_warnings ns =
      map (λ n. no_connections n.node_id n.class_type) (keep is_orphan ns)
      ++ map (λ n. no_output_connections n.node_id) (keep (is_dead_end ns) ns)

  -- The result of `validate`, from the nodes, the warnings of step 2 and the mappings.
  unfoldable pub result_of : Dict (NodeInfo V) → List Warning → List (Purpose × String) → Result V
  unfolding missing count_warnings connection_warnings
  result_of nodes warnings mappings = record {
    is_valid = elim (missing nodes) [ [] ↦ true | t ∷ ts ↦ false ];
    errors = map missing_required (missing nodes);
    warnings = warnings ++ count_warnings (values nodes) ++ connection_warnings (values nodes);
    nodes = nodes;
    suggested_mappings = mappings;
  }

  -- `validate`, of a workflow that is a dictionary with an entry; none where it raises.
  unfoldable pub validate_dict : Dict (NodeData V) → Option (Result V)
  unfolding parse_nodes parse_warnings generate_mappings result_of
  validate_dict w = elim (parse_nodes w) [
    | none ↦ none
    | some nodes ↦ elim (generate_mappings nodes) [
      | none ↦ none
      | some mappings ↦ some (result_of nodes (parse_warnings w) mappings)
    ]
  ]

  unfoldable pub validate : Workflow V → Option (Result V)
  unfolding failed validate_dict
  validate other_json = some (failed workflow_not_a_dict)
  validate (dict []) = some (failed workflow_empty)
  validate (dict (x ∷ w)) = validate_dict (x ∷ w)

  -- `type_counts` of `get_node_summary`, added to those counted before.
  unfoldable pub type_counts : List (NodeInfo V) → Dict ℕ → Dict ℕ
  unfolding insert lookup
  type_counts [] counts = counts
  type_counts (n ∷ ns) counts =
      type_counts ns (
        insert n.class_type (elim (lookup n.class_type counts) [ none ↦ 1 | some k ↦ k + 1 ])
          counts)

-- What a path leads to: no file, a text that is no JSON, a failing read, or a workflow.
pub data FileText (V : Type 0) : Type 0 where
  no_file : FileText V
  not_json fails : String → FileText V
  holds : Workflow V → FileText V

-- An exception of `validate` is caught; `validation_raised` is the read error with its text.
unfoldable pub validate_file : {V : Type 0} → String → FileText V → Result V
unfolding failed validate
validate_file path no_file = failed (file_not_found path)
validate_file path (not_json message) = failed (invalid_json message)
validate_file path (fails message) = failed (read_error message)
validate_file path (holds w) = elim (validate w) [ none ↦ failed validation_raised | some r ↦ r ]

pub record Summary : Type 0 where
  pub valid : Bool
  pub total_nodes : ℕ
  pub node_types : Dict ℕ
  pub errors : List Error
  pub warnings : List Warning
  pub suggested_mappings : List (Purpose × String)

-- None where `validate` raises.
unfoldable pub get_node_summary : {V : Type 0} → Workflow V → Option Summary
unfolding validate type_counts
get_node_summary w = elim (validate w) [
  | none ↦ none
  | some r ↦ some (record {
    valid = r.is_valid;
    total_nodes = length r.nodes;
    node_types = type_counts (values r.nodes) [];
    errors = r.errors;
    warnings = r.warnings;
    suggested_mappings = r.suggested_mappings;
  })
]
