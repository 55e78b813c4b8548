-- ===== src/Workflow/Nodes.antt =====
-- engine/workflow_validator.py: the nodes of a workflow and their types.
use text.Mathlib.Text.{find?}
use comfyui_engine.Prelude.{
  Bool, true, false, ◌||◌, none, some, List, [], ◌∷◌, String, str_eq, Dict, lookup,
}

pub data NodeType : Type 0 where
  ksampler ksampler_advanced empty_latent clip_text_encode lora_loader : NodeType
  lora_loader_model_only checkpoint_loader vae_decode save_image preview_image : NodeType
  load_image image_scale control_net control_net_apply conditioning : NodeType
  conditioning_concat model_merge t2i_adapter ip_adapter instant_id unknown : NodeType

-- The value of a member of the enumeration.
unfoldable pub type_name : NodeType → String
type_name ksampler = "KSampler"
type_name ksampler_advanced = "KSamplerAdvanced"
type_name empty_latent = "EmptyLatentImage"
type_name clip_text_encode = "CLIPTextEncode"
type_name lora_loader = "LoraLoader"
type_name lora_loader_model_only = "LoraLoaderModelOnly"
type_name checkpoint_loader = "CheckpointLoaderSimple"
type_name vae_decode = "VAEDecode"
type_name save_image = "SaveImage"
type_name preview_image = "PreviewImage"
type_name load_image = "LoadImage"
type_name image_scale = "ImageScale"
type_name control_net = "ControlNetLoader"
type_name control_net_apply = "ControlNetApply"
type_name conditioning = "ConditioningAverage"
type_name conditioning_concat = "ConditioningConcat"
type_name model_merge = "ModelMergeSimple"
type_name t2i_adapter = "T2IAdapterLoader"
type_name ip_adapter = "IPAdapterApply"
type_name instant_id = "InstantIDFaceAnalysis"
type_name unknown = "Unknown"

-- `==` on the members, whose values differ.
unfoldable pub same_type : NodeType → NodeType → Bool
unfolding type_name
same_type a b = str_eq (type_name a) (type_name b)

unfoldable pub node_type_map : Dict NodeType
node_type_map =
    ("KSampler", ksampler)
    ∷ ("KSamplerAdvanced", ksampler_advanced)
    ∷ ("EmptyLatentImage", empty_latent)
    ∷ ("CLIPTextEncode", clip_text_encode)
    ∷ ("LoraLoader", lora_loader)
    ∷ ("LoraLoaderModelOnly", lora_loader_model_only)
    ∷ ("CheckpointLoaderSimple", checkpoint_loader)
    ∷ ("VAEDecode", vae_decode)
    ∷ ("SaveImage", save_image)
    ∷ ("PreviewImage", preview_image)
    ∷ ("LoadImage", load_image)
    ∷ ("ImageScale", image_scale)
    ∷ ("ControlNetLoader", control_net)
    ∷ ("ControlNetApply", control_net_apply)
    ∷ ("ConditioningAverage", conditioning)
    ∷ ("ConditioningConcat", conditioning_concat)
    ∷ ("ModelMergeSimple", model_merge)
    ∷ ("T2IAdapterLoader", t2i_adapter)
    ∷ ("IPAdapterApply", ip_adapter)
    ∷ ("InstantIDFaceAnalysis", instant_id)
    ∷ []

unfoldable pub detect_node_type : String → NodeType
unfolding lookup node_type_map
detect_node_type c = elim (lookup c node_type_map) [ none ↦ unknown | some t ↦ t ]

-- An input: a list, with the texts of its elements, or another value.
pub data Input (V : Type 0) : Type 0 where
  list_of : List String → Input V
  value : V → Input V

-- A class type: a text, "" for one that is missing or counts as false, or another value.
pub data ClassType : Type 0 where
  class_text : String → ClassType
  other_class : ClassType

-- The inputs: a dictionary, empty where they are missing, or another value.
pub data Inputs (V : Type 0) : Type 0 where
  fields : Dict (Input V) → Inputs V
  other_inputs : Inputs V

-- The data of a node: no dictionary, or one.
pub data NodeData (V : Type 0) : Type 0 where
  not_a_dict : NodeData V
  node : ClassType → Inputs V → List String → NodeData V

pub record NodeInfo (V : Type 0) : Type 0 where
  pub node_id : String
  pub class_type : String
  pub inputs : Dict (Input V)
  pub outputs : List String
  pub connections : List String
  pub node_type : NodeType

module _ {V : Type 0} where
  -- The inputs that are lists of length 2, by their first elements.
  unfoldable pub extract_connections : Dict (Input V) → List String
  extract_connections [] = []
  extract_connections ((k, list_of (id ∷ index ∷ [])) ∷ d) = id ∷ extract_connections d
  extract_connections ((k, list_of []) ∷ d) = extract_connections d
  extract_connections ((k, list_of (id ∷ [])) ∷ d) = extract_connections d
  extract_connections ((k, list_of (id ∷ a ∷ b ∷ c)) ∷ d) = extract_connections d
  extract_connections ((k, value v) ∷ d) = extract_connections d

  unfoldable pub node_info : String → String → Dict (Input V) → List String → NodeInfo V
  unfolding extract_connections detect_node_type
  node_info id c inputs outputs = record {
    node_id = id;
    class_type = c;
    inputs = inputs;
    outputs = outputs;
    connections = extract_connections inputs;
    node_type = detect_node_type c;
  }

  unfoldable pub is_type : NodeType → NodeInfo V → Bool
  unfolding same_type
  is_type t n = same_type n.node_type t

  unfoldable pub is_sampler : NodeInfo V → Bool
  unfolding is_type
  is_sampler n = is_type ksampler n || is_type ksampler_advanced n

  unfoldable pub is_output : NodeInfo V → Bool
  unfolding is_type
  is_output n = is_type save_image n || is_type preview_image n

  -- `"Lora" in n.class_type`
  unfoldable pub is_lora : NodeInfo V → Bool
  is_lora n = elim (find? n.class_type "Lora") [ none ↦ false | some i ↦ true ]
