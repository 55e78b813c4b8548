-- ===== src/Workflow/Mappings.antt =====
-- engine/workflow_validator.py: `_generate_mappings`. The purposes are those of STANDARD_MAPPINGS;
-- `lora i` stands for "lora_1" and so on, with i counted from 0.
use comfyui_engine.Prelude.{
  ℕ, zero, suc, Bool, true, false, Option, none, some, List, [], ◌∷◌, String, str_eq, if◌then◌else◌,
  Dict, lookup, values, keep,
}
use comfyui_engine.Workflow.Nodes.{
  clip_text_encode, checkpoint_loader, empty_latent, vae_decode, save_image, Input, list_of, value,
  NodeInfo, is_type, is_sampler, is_lora,
}

pub data Purpose : Type 0 where
  positive_prompt negative_prompt sampler checkpoint latent decode image : Purpose
  lora : ℕ → Purpose

unfoldable pub purposes : List Purpose
purposes =
    positive_prompt
    ∷ negative_prompt
    ∷ sampler
    ∷ checkpoint
    ∷ latent
    ∷ decode
    ∷ image
    ∷ lora 0
    ∷ lora 1
    ∷ lora 2
    ∷ []

-- The first candidate of a purpose in STANDARD_MAPPINGS.
unfoldable pub standard_id : Purpose → String
standard_id positive_prompt = "6"
standard_id negative_prompt = "7"
standard_id sampler = "3"
standard_id checkpoint = "4"
standard_id latent = "5"
standard_id decode = "8"
standard_id image = "9"
standard_id (lora zero) = "10"
standard_id (lora (suc zero)) = "11"
standard_id (lora (suc (suc i))) = "12"

abbrev pub with_purpose :
    Purpose → Option String → List (Purpose × String) → List (Purpose × String)
with_purpose p none ms = ms
with_purpose p (some id) ms = (p, id) ∷ ms

module _ {V : Type 0} where
  -- `isinstance(input, list) and str(input[0]) == id`; none where `input[0]` raises `IndexError`.
  unfoldable pub leads_to : String → Option (Input V) → Option Bool
  leads_to id none = some false
  leads_to id (some (list_of [])) = none
  leads_to id (some (list_of (first ∷ rest))) = some (str_eq first id)
  leads_to id (some (value v)) = some false

  -- One round of the loops of `_is_positive_clip` and `_is_negative_clip`, for the input's name.
  unfoldable pub is_sampled_by : String → String → Option (NodeInfo V) → Option Bool
  unfolding leads_to is_sampler lookup
  is_sampled_by name id none = some false
  is_sampled_by name id (some target) =
      if is_sampler target then leads_to id (lookup name target.inputs) else some false

  -- The loops, which stop where a round finds the node.
  unfoldable pub sampled_by_any : String → String → Dict (NodeInfo V) → List String → Option Bool
  unfolding is_sampled_by lookup
  sampled_by_any name id nodes [] = some false
  sampled_by_any name id nodes (conn ∷ conns) =
      let rest = sampled_by_any name id nodes conns in
      elim (is_sampled_by name id (lookup conn nodes)) [
        | none ↦ none
        | some b ↦ if b then some true else rest
      ]

  -- `_is_positive_clip` with "positive", `_is_negative_clip` with "negative".
  unfoldable pub is_clip_of : String → NodeInfo V → Dict (NodeInfo V) → Option Bool
  unfolding sampled_by_any
  is_clip_of name n nodes = sampled_by_any name n.node_id nodes n.connections

  -- The tests on a node, by purpose; none where they raise.
  unfoldable pub serves : Dict (NodeInfo V) → Purpose → NodeInfo V → Option Bool
  unfolding is_clip_of is_type is_sampler is_lora
  serves nodes positive_prompt n =
      if is_type clip_text_encode n then is_clip_of "positive" n nodes else some false
  serves nodes negative_prompt n =
      if is_type clip_text_encode n then is_clip_of "negative" n nodes else some false
  serves nodes sampler n = some (is_sampler n)
  serves nodes checkpoint n = some (is_type checkpoint_loader n)
  serves nodes latent n = some (is_type empty_latent n)
  serves nodes decode n = some (is_type vae_decode n)
  serves nodes image n = some (is_type save_image n)
  serves nodes (lora i) n = some (is_lora n)

  -- The loop over the nodes that stops at the first that serves; none where a test raises.
  unfoldable pub first_serving :
      Dict (NodeInfo V) → Purpose → Dict (NodeInfo V) → Option (Option String)
  unfolding serves
  first_serving nodes p [] = some none
  first_serving nodes p ((id, n) ∷ rest) =
      let later = first_serving nodes p rest in
      elim (serves nodes p n) [ none ↦ none | some b ↦ if b then some (some id) else later ]

  unfoldable pub nth_id : ℕ → List (NodeInfo V) → Option String
  nth_id i [] = none
  nth_id zero (n ∷ ns) = some n.node_id
  nth_id (suc i) (n ∷ ns) = nth_id i ns

  -- The node of a purpose. For a LoRA the loop sets the same node, the one at the index among the
  -- LoRA nodes if there are so many, at each LoRA node.
  unfoldable pub suggest : Dict (NodeInfo V) → Purpose → Option (Option String)
  unfolding first_serving nth_id is_lora
  suggest nodes positive_prompt = first_serving nodes positive_prompt nodes
  suggest nodes negative_prompt = first_serving nodes negative_prompt nodes
  suggest nodes sampler = first_serving nodes sampler nodes
  suggest nodes checkpoint = first_serving nodes checkpoint nodes
  suggest nodes latent = first_serving nodes latent nodes
  suggest nodes decode = first_serving nodes decode nodes
  suggest nodes image = first_serving nodes image nodes
  suggest nodes (lora i) = some (nth_id i (keep is_lora (values nodes)))

  unfoldable pub collect : Dict (NodeInfo V) → List Purpose → Option (List (Purpose × String))
  unfolding suggest
  collect nodes [] = some []
  collect nodes (p ∷ ps) =
      let rest = collect nodes ps in
      elim (suggest nodes p) [
        | none ↦ none
        | some found ↦ elim rest [ none ↦ none | some ms ↦ some (with_purpose p found ms) ]
      ]

  -- `_generate_mappings`; none where it raises.
  unfoldable pub generate_mappings : Dict (NodeInfo V) → Option (List (Purpose × String))
  unfolding collect purposes
  generate_mappings nodes = collect nodes purposes
