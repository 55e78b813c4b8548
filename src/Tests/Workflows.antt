-- ===== src/Tests/Workflows.antt =====
-- Tests and instances for engine/workflow_validator.py.
use comfyui_engine.Prelude.{
  ℕ, ◌≡◌, refl, Bool, true, Option, none, some, List, [], ◌∷◌, String, Dict, values, all, lookup,
  All,
}
use comfyui_engine.Workflow.Nodes.{
  type_name, NodeInfo, node_info, NodeData, class_text, other_class, fields, other_inputs, node,
  list_of, Input,
}
use comfyui_engine.Workflow.Mappings.{Purpose, sampler, positive_prompt, generate_mappings}
use comfyui_engine.Workflow.Serving.{MapsTo, generate_mappings-MapsTo}
use comfyui_engine.Workflow.Validation.{
  dict, Result, Summary, required_node_types, validate, get_node_summary,
}
use comfyui_engine.Workflow.Standard.{apply_mappings}
use comfyui_engine.Workflow.Required.{has_class, is_valid-eq-all}

abbrev link : String → Input ℕ
link id = list_of (id ∷ "0" ∷ [])

abbrev plain : String → Dict (Input ℕ) → NodeData ℕ
plain c inputs = node (class_text c) (fields inputs) []

-- A complete workflow, in the form in which ComfyUI exports it.
abbrev standard : Dict (NodeData ℕ)
standard =
    ("4", plain "CheckpointLoaderSimple" [])
    ∷ ("5", plain "EmptyLatentImage" [])
    ∷ ("6", plain "CLIPTextEncode" (("clip", link "4") ∷ []))
    ∷ ("7", plain "CLIPTextEncode" (("clip", link "4") ∷ []))
    ∷ (
      "3",
      plain "KSampler" (
          ("model", link "4")
          ∷ ("positive", link "6")
          ∷ ("negative", link "7")
          ∷ ("latent_image", link "5")
          ∷ []),
    )
    ∷ ("8", plain "VAEDecode" (("samples", link "3") ∷ ("vae", link "4") ∷ []))
    ∷ []

is_valid-eq-all_example :
    (r : Result ℕ) × (validate (dict standard) ≡ some r)
    × (r.is_valid ≡ all (λ t. has_class (type_name t) standard) required_node_types)
unfolding lookup
is_valid-eq-all_example =
    is_valid-eq-all standard (refl, (refl, (refl, (refl, (refl, (refl, tt))))))

abbrev verdict_of : Option (Result ℕ) → Option Bool
verdict_of none = none
verdict_of (some r) = some r.is_valid

standard_is_valid : verdict_of (validate (dict standard)) ≡ some true
unfolding validate values lookup
standard_is_valid = refl

abbrev bad_inputs : NodeData ℕ
bad_inputs = node (class_text "KSampler") other_inputs []

abbrev bad_class : NodeData ℕ
bad_class = node other_class (fields []) []

-- `validate` raises for inputs that are no dictionary, for a class type that is no text, and for an
-- empty list as the positive input of the sampler that an encoder takes an input from.
bad_inputs_raise : validate (dict (("1", bad_inputs) ∷ [])) ≡ none
unfolding validate
bad_inputs_raise = refl

bad_class_raises : validate (dict (("1", bad_class) ∷ [])) ≡ none
unfolding validate
bad_class_raises = refl

empty_positive_raises :
    validate (
      dict (
        ("1", plain "CLIPTextEncode" (("clip", link "2") ∷ []))
        ∷ ("2", plain "KSampler" (("positive", list_of []) ∷ []))
        ∷ []))
    ≡ none
unfolding validate lookup values
empty_positive_raises = refl

abbrev in_cycle : Dict (NodeInfo ℕ)
in_cycle =
    ("1", node_info "1" "CLIPTextEncode" (("clip", link "2") ∷ []) [])
    ∷ ("2", node_info "2" "KSampler" (("positive", link "1") ∷ []) [])
    ∷ []

generate_mappings-MapsTo_example :
    (ms : List (Purpose × String)) × (generate_mappings in_cycle ≡ some ms)
    × All (MapsTo in_cycle) ms
unfolding node_info lookup
generate_mappings-MapsTo_example = generate_mappings-MapsTo in_cycle (refl, (refl, tt))

prompt_in_cycle : generate_mappings in_cycle ≡ some ((positive_prompt, "1") ∷ (sampler, "2") ∷ [])
unfolding generate_mappings node_info lookup values
prompt_in_cycle = refl

abbrev decoder : NodeData ℕ
decoder = plain "VAEDecode" []

-- A node whose id is the standard id of another purpose replaces the node that was renamed to it.
renamed_node_is_lost :
    apply_mappings (("1", plain "KSampler" []) ∷ ("3", decoder) ∷ []) ((sampler, "1") ∷ [])
    ≡ some (("3", decoder) ∷ [])
unfolding apply_mappings
renamed_node_is_lost = refl

abbrev count_of : String → Option Summary → Option ℕ
count_of c none = none
count_of c (some s) = lookup c s.node_types

encoders_are_counted : count_of "CLIPTextEncode" (get_node_summary (dict standard)) ≡ some 2
unfolding get_node_summary lookup values
encoders_are_counted = refl
