-- ===== src/Workflow/Totality.antt =====
-- Which workflows `validate` reads without an error.
use comfyui_engine.Prelude.{
  ◌≡◌, refl, inl, inr, arith, Bool, true, false, ◌&&◌, ◌||◌, Option, none, some, List, [], ◌∷◌,
  String, str_eq, if◌then◌else◌, Dict, lookup, All, Bool-cases, Option-cases,
}
use comfyui_engine.Workflow.Nodes.{
  clip_text_encode, Input, list_of, value, class_text, other_class, fields, other_inputs, NodeData,
  not_a_dict, node, NodeInfo, node_info, is_type, is_sampler,
}
use comfyui_engine.Workflow.Mappings.{
  Purpose, positive_prompt, negative_prompt, sampler, checkpoint, latent, decode, image, lora,
  leads_to, is_sampled_by, sampled_by_any, is_clip_of, serves, first_serving, suggest, collect,
}
use comfyui_engine.Workflow.Validation.{parse_nodes}

abbrev pub is_some : {A : Type 0} → Option A → Bool
is_some none = false
is_some (some a) = true

pub some_of : {A : Type 0} → (o : Option A) → is_some o ≡ true → (a : A) × (o ≡ some a)
some_of none h = absurd (cc h)
some_of (some a) h = (a, refl)

module _ {V : Type 0} where
  -- It is no empty list.
  abbrev pub is_filled : Option (Input V) → Bool
  is_filled none = true
  is_filled (some (list_of [])) = false
  is_filled (some (list_of (x ∷ xs))) = true
  is_filled (some (value v)) = true

  abbrev pub has_filled : Dict (Input V) → Bool
  has_filled inputs = is_filled (lookup "positive" inputs) && is_filled (lookup "negative" inputs)

  -- A node that is no dictionary, or without a class type, or with a text as class type and a
  -- dictionary of inputs, of which neither "positive" nor "negative" is an empty list.
  abbrev pub is_sound : NodeData V → Bool
  is_sound not_a_dict = true
  is_sound (node other_class inputs outputs) = false
  is_sound (node (class_text c) other_inputs outputs) = str_eq c ""
  is_sound (node (class_text c) (fields inputs) outputs) = str_eq c "" || has_filled inputs

  abbrev pub AreFilled : Dict (NodeInfo V) → Type 0
  AreFilled nodes = All (λ e. has_filled e.1.inputs ≡ true) nodes

  pub parse_nodes_returns :
      (w : Dict (NodeData V))
      → All (λ e. is_sound e.1 ≡ true) w
      → (ns : Dict (NodeInfo V)) × (parse_nodes w ≡ some ns) × AreFilled ns
  unfolding parse_nodes node_info
  parse_nodes_returns [] h = ([], refl, tt)
  parse_nodes_returns ((id, not_a_dict) ∷ w) h = parse_nodes_returns w h.1
  parse_nodes_returns ((id, node other_class inputs outputs) ∷ w) h = absurd (cc h.0)
  parse_nodes_returns ((id, node (class_text c) other_inputs outputs) ∷ w) h =
      let rest = parse_nodes_returns w h.1 in (rest.0, rw h.0 rest.1, rest.2)
  parse_nodes_returns ((id, node (class_text c) (fields inputs) outputs) ∷ w) h =
      let rest = parse_nodes_returns w h.1 in
      elim (Bool-cases (str_eq c "")) [
        | inl e ↦ (rest.0, rw e rest.1, rest.2)
        | inr e ↦ (
          (id, node_info id c inputs outputs) ∷ rest.0,
          rw (e, rest.1) refl,
          (rw e at h.0, rest.2),
        )
      ]

  lookup-AreFilled :
      (id : String) (nodes : Dict (NodeInfo V)) (n : NodeInfo V)
      → AreFilled nodes
      → lookup id nodes ≡ some n
      → has_filled n.inputs ≡ true
  unfolding lookup
  lookup-AreFilled id [] n h e = absurd (cc e)
  lookup-AreFilled id ((k, m) ∷ nodes) n h e = elim (Bool-cases (str_eq k id)) [
    | inl same ↦ (let is_n : m ≡ n = cc (rw same at e) in rw is_n at h.0)
    | inr other ↦ lookup-AreFilled id nodes n h.1 (rw other at e)
  ]

  leads_to_returns :
      (id : String) (i : Option (Input V)) → is_filled i ≡ true → is_some (leads_to id i) ≡ true
  unfolding leads_to
  leads_to_returns id none h = refl
  leads_to_returns id (some (list_of [])) h = h
  leads_to_returns id (some (list_of (x ∷ xs))) h = refl
  leads_to_returns id (some (value v)) h = refl

module _ {V : Type 0} (name : String)
    (filled : (inputs : Dict (Input V))
      → has_filled inputs ≡ true
      → is_filled (lookup name inputs) ≡ true)
    (nodes : Dict (NodeInfo V)) (h : AreFilled nodes) where
  is_sampled_by_returns :
      (id conn : String) → is_some (is_sampled_by name id (lookup conn nodes)) ≡ true
  unfolding is_sampled_by
  is_sampled_by_returns id conn = elim (Option-cases (lookup conn nodes)) [
    | inl e ↦ rw e refl
    | inr (target, e) ↦ elim (Bool-cases (is_sampler target)) [
      | inl s ↦
          rw (e, s)
            (leads_to_returns id (lookup name target.inputs)
              (filled target.inputs (lookup-AreFilled conn nodes target h e)))
      | inr s ↦ rw (e, s) refl
    ]
  ]

  sampled_by_any_returns :
      (id : String) (conns : List String) → is_some (sampled_by_any name id nodes conns) ≡ true
  unfolding sampled_by_any
  sampled_by_any_returns id [] = refl
  sampled_by_any_returns id (conn ∷ conns) =
      let (b, e) =
        some_of (is_sampled_by name id (lookup conn nodes)) (is_sampled_by_returns id conn) in
      elim (Bool-cases b) [
        | inl t ↦ rw (sampled_by_any, e, t) refl
        | inr f ↦ rw (sampled_by_any, e, f) (sampled_by_any_returns id conns)
      ]

  prompt_returns :
      (n : NodeInfo V)
      → is_some (if is_type clip_text_encode n then is_clip_of name n nodes else some false) ≡ true
  unfolding is_clip_of
  prompt_returns n = elim (Bool-cases (is_type clip_text_encode n)) [
    | inl t ↦ rw t (sampled_by_any_returns n.node_id n.connections)
    | inr f ↦ rw f refl
  ]

module _ {V : Type 0} (nodes : Dict (NodeInfo V)) (h : AreFilled nodes) where
  serves_returns : (p : Purpose) (n : NodeInfo V) → is_some (serves nodes p n) ≡ true
  unfolding serves
  serves_returns positive_prompt n =
      prompt_returns "positive" (λ inputs f. ground (arith, f)) nodes h n
  serves_returns negative_prompt n =
      prompt_returns "negative" (λ inputs f. ground (arith, f)) nodes h n
  serves_returns sampler n = refl
  serves_returns checkpoint n = refl
  serves_returns latent n = refl
  serves_returns decode n = refl
  serves_returns image n = refl
  serves_returns (lora i) n = refl

  first_serving_returns :
      (p : Purpose) (rest : Dict (NodeInfo V)) → is_some (first_serving nodes p rest) ≡ true
  unfolding first_serving
  first_serving_returns p [] = refl
  first_serving_returns p ((id, n) ∷ rest) =
      let (b, e) = some_of (serves nodes p n) (serves_returns p n) in
      elim (Bool-cases b) [
        | inl t ↦ rw (first_serving, e, t) refl
        | inr f ↦ rw (first_serving, e, f) (first_serving_returns p rest)
      ]

  suggest_returns : (p : Purpose) → is_some (suggest nodes p) ≡ true
  unfolding suggest
  suggest_returns positive_prompt = first_serving_returns positive_prompt nodes
  suggest_returns negative_prompt = first_serving_returns negative_prompt nodes
  suggest_returns sampler = first_serving_returns sampler nodes
  suggest_returns checkpoint = first_serving_returns checkpoint nodes
  suggest_returns latent = first_serving_returns latent nodes
  suggest_returns decode = first_serving_returns decode nodes
  suggest_returns image = first_serving_returns image nodes
  suggest_returns (lora i) = refl

  pub collect_returns : (ps : List Purpose) → is_some (collect nodes ps) ≡ true
  unfolding collect
  collect_returns [] = refl
  collect_returns (p ∷ ps) =
      let (found, e) = some_of (suggest nodes p) (suggest_returns p) in
      let (ms, f) = some_of (collect nodes ps) (collect_returns ps) in rw (collect, e, f) refl
