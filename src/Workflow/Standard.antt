-- ===== src/Workflow/Standard.antt =====
-- engine/workflow_validator.py: `apply_mappings`. The result is none where the code raises, as it
-- does for a node, or inputs of a node, that are no dictionary. That the inputs of the workflow it is given are changed
-- along with the result is not modelled.
use comfyui_engine.Prelude.{Option, none, some, List, [], ◌∷◌, String, Dict, lookup, insert}
use comfyui_engine.Workflow.Nodes.{
  Input, list_of, value, fields, other_inputs, NodeData, not_a_dict, node,
}
use comfyui_engine.Workflow.Mappings.{Purpose, standard_id}

-- `id_mapping.get(id, id)`
unfoldable pub renamed : Dict String → String → String
unfolding lookup
renamed ids id = elim (lookup id ids) [ none ↦ id | some new ↦ new ]

module _ {V : Type 0} where
  -- `id_mapping`: the node ids of the mappings that are in the workflow, with their standard ids.
  unfoldable pub id_mapping :
      Dict (NodeData V) → List (Purpose × String) → Dict String → Dict String
  unfolding lookup insert standard_id
  id_mapping w [] ids = ids
  id_mapping w ((p, id) ∷ ms) ids =
      id_mapping w ms (elim (lookup id w) [ none ↦ ids | some n ↦ insert id (standard_id p) ids ])

  unfoldable pub rename_input : Dict String → Input V → Input V
  unfolding renamed
  rename_input ids (list_of (id ∷ index ∷ [])) = list_of (renamed ids id ∷ index ∷ [])
  rename_input ids (list_of []) = list_of []
  rename_input ids (list_of (id ∷ [])) = list_of (id ∷ [])
  rename_input ids (list_of (id ∷ a ∷ b ∷ c)) = list_of (id ∷ a ∷ b ∷ c)
  rename_input ids (value v) = value v

  unfoldable pub rename_inputs : Dict String → Dict (Input V) → Dict (Input V)
  unfolding rename_input
  rename_inputs ids [] = []
  rename_inputs ids ((k, v) ∷ d) = (k, rename_input ids v) ∷ rename_inputs ids d

  -- The second loop, with the result so far.
  unfoldable pub rename_nodes :
      Dict String → Dict (NodeData V) → Dict (NodeData V) → Option (Dict (NodeData V))
  unfolding rename_inputs renamed insert
  rename_nodes ids [] modified = some modified
  rename_nodes ids ((id, not_a_dict) ∷ w) modified = none
  rename_nodes ids ((id, node c other_inputs outputs) ∷ w) modified = none
  rename_nodes ids ((id, node c (fields inputs) outputs) ∷ w) modified =
      rename_nodes ids w
        (insert (renamed ids id) (node c (fields (rename_inputs ids inputs)) outputs) modified)

  unfoldable pub apply_mappings :
      Dict (NodeData V) → List (Purpose × String) → Option (Dict (NodeData V))
  unfolding rename_nodes id_mapping
  apply_mappings w ms = rename_nodes (id_mapping w ms []) w []
