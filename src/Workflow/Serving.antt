-- ===== src/Workflow/Serving.antt =====
-- Which nodes the suggested mappings name.
use comfyui_engine.Prelude.{
  ℕ, zero, suc, ◌≡◌, refl, sym, inl, inr, arith, Bool, true, false, ◌&&◌, Option, none, some, List,
  [], ◌∷◌, String, str_eq, if◌then◌else◌, Dict, lookup, values, keep, any, All, Bool-cases,
  Option-cases,
}
use text.Mathlib.TextPositions.{eq_refl}
use comfyui_engine.Workflow.Nodes.{
  clip_text_encode, checkpoint_loader, empty_latent, vae_decode, save_image, Input, list_of, value,
  NodeInfo, is_type, is_sampler, is_lora,
}
use comfyui_engine.Workflow.Mappings.{
  Purpose, positive_prompt, negative_prompt, sampler, checkpoint, latent, decode, image, lora,
  purposes, leads_to, is_sampled_by, sampled_by_any, is_clip_of, serves, first_serving, nth_id,
  suggest, collect, generate_mappings,
}
use comfyui_engine.Workflow.Totality.{AreFilled, some_of, collect_returns}

module _ {V : Type 0} where
  -- The input is a list that begins with the id.
  abbrev pub begins_with : String → Option (Input V) → Bool
  begins_with id none = false
  begins_with id (some (list_of [])) = false
  begins_with id (some (list_of (first ∷ rest))) = str_eq first id
  begins_with id (some (value v)) = false

  -- It is a sampler whose input of that name begins with the id.
  abbrev pub feeds_back : String → String → Option (NodeInfo V) → Bool
  feeds_back name id none = false
  feeds_back name id (some m) = is_sampler m && begins_with id (lookup name m.inputs)

  -- An encoder that takes an input from a sampler that takes its own input from the encoder.
  abbrev pub is_in_cycle : String → Dict (NodeInfo V) → NodeInfo V → Bool
  is_in_cycle name nodes n =
      is_type clip_text_encode n
      && any (λ conn. feeds_back name n.node_id (lookup conn nodes)) n.connections

  abbrev pub is_right : Dict (NodeInfo V) → Purpose → NodeInfo V → Bool
  is_right nodes positive_prompt n = is_in_cycle "positive" nodes n
  is_right nodes negative_prompt n = is_in_cycle "negative" nodes n
  is_right nodes sampler n = is_sampler n
  is_right nodes checkpoint n = is_type checkpoint_loader n
  is_right nodes latent n = is_type empty_latent n
  is_right nodes decode n = is_type vae_decode n
  is_right nodes image n = is_type save_image n
  is_right nodes (lora i) n = is_lora n

  -- A node under the id, or for a LoRA with the id, is right for the purpose.
  abbrev pub MapsTo : Dict (NodeInfo V) → Purpose × String → Type 0
  MapsTo nodes (lora i, id) = any (λ n. str_eq n.node_id id && is_lora n) (values nodes) ≡ true
  MapsTo nodes (p, id) = any (λ e. str_eq e.0 id && is_right nodes p e.1) nodes ≡ true

  leads_to-begins :
      (id : String) (i : Option (Input V)) → leads_to id i ≡ some true → begins_with id i ≡ true
  unfolding leads_to
  leads_to-begins id none h = absurd (cc h)
  leads_to-begins id (some (list_of [])) h = absurd (cc h)
  leads_to-begins id (some (list_of (x ∷ xs))) h = cc h
  leads_to-begins id (some (value v)) h = absurd (cc h)

  is_sampled_by-feeds :
      (name id : String) (m : Option (NodeInfo V))
      → is_sampled_by name id m ≡ some true
      → feeds_back name id m ≡ true
  unfolding is_sampled_by
  is_sampled_by-feeds name id none h = absurd (cc h)
  is_sampled_by-feeds name id (some m) h = elim (Bool-cases (is_sampler m)) [
    | inl s ↦ rw (s, leads_to-begins id (lookup name m.inputs) (rw s at h)) refl
    | inr s ↦ absurd (cc (rw s at h))
  ]

  sampled_by_any-feeds :
      (name id : String) (nodes : Dict (NodeInfo V)) (conns : List String)
      → sampled_by_any name id nodes conns ≡ some true
      → any (λ conn. feeds_back name id (lookup conn nodes)) conns ≡ true
  unfolding sampled_by_any
  sampled_by_any-feeds name id nodes [] h = absurd (cc h)
  sampled_by_any-feeds name id nodes (conn ∷ conns) h =
      elim (Option-cases (is_sampled_by name id (lookup conn nodes))) [
        | inl e ↦ absurd (cc (rw (sampled_by_any, e) at h))
        | inr (b, e) ↦ elim (Bool-cases b) [
          | inl t ↦
              (let found : is_sampled_by name id (lookup conn nodes) ≡ some true = rw t at e in
                rw (is_sampled_by-feeds name id (lookup conn nodes) found) refl)
          | inr f ↦
              (let later =
                  sampled_by_any-feeds name id nodes conns (rw (sampled_by_any, e, f) at h) in
                ground (arith, later))
        ]
      ]

  prompt-is_in_cycle :
      (name : String) (nodes : Dict (NodeInfo V)) (n : NodeInfo V)
      → (if is_type clip_text_encode n then is_clip_of name n nodes else some false) ≡ some true
      → is_in_cycle name nodes n ≡ true
  unfolding is_clip_of
  prompt-is_in_cycle name nodes n h = elim (Bool-cases (is_type clip_text_encode n)) [
    | inl t ↦ rw (t, sampled_by_any-feeds name n.node_id nodes n.connections (rw t at h)) refl
    | inr f ↦ absurd (cc (rw f at h))
  ]

  serves-is_right :
      (nodes : Dict (NodeInfo V)) (p : Purpose) (n : NodeInfo V)
      → serves nodes p n ≡ some true
      → is_right nodes p n ≡ true
  unfolding serves
  serves-is_right nodes positive_prompt n h = prompt-is_in_cycle "positive" nodes n h
  serves-is_right nodes negative_prompt n h = prompt-is_in_cycle "negative" nodes n h
  serves-is_right nodes sampler n h = cc h
  serves-is_right nodes checkpoint n h = cc h
  serves-is_right nodes latent n h = cc h
  serves-is_right nodes decode n h = cc h
  serves-is_right nodes image n h = cc h
  serves-is_right nodes (lora i) n h = cc h

  first_serving-is_right :
      (nodes : Dict (NodeInfo V)) (p : Purpose) (rest : Dict (NodeInfo V)) (id : String)
      → first_serving nodes p rest ≡ some (some id)
      → any (λ e. str_eq e.0 id && is_right nodes p e.1) rest ≡ true
  unfolding first_serving
  first_serving-is_right nodes p [] id h = absurd (cc h)
  first_serving-is_right nodes p ((k, n) ∷ rest) id h = elim (Option-cases (serves nodes p n)) [
    | inl e ↦ absurd (cc (rw (first_serving, e) at h))
    | inr (b, e) ↦ elim (Bool-cases b) [
      | inl t ↦
          (let same : k ≡ id = cc (rw (first_serving, e, t) at h) in
            rw (same, eq_refl id, serves-is_right nodes p n (rw t at e)) refl)
      | inr f ↦
          (let later = first_serving-is_right nodes p rest id (rw (first_serving, e, f) at h) in
            ground (arith, later))
    ]
  ]

  nth_id-is_lora :
      (i : ℕ) (ns : List (NodeInfo V)) (id : String)
      → nth_id i (keep is_lora ns) ≡ some id
      → any (λ n. str_eq n.node_id id && is_lora n) ns ≡ true
  unfolding nth_id is_lora
  nth_id-is_lora zero [] id h = absurd (cc h)
  nth_id-is_lora (suc i) [] id h = absurd (cc h)
  nth_id-is_lora zero (n ∷ ns) id h = elim (Bool-cases (is_lora n)) [
    | inl t ↦ (let same : n.node_id ≡ id = cc (rw t at h) in rw (same, eq_refl id, t) refl)
    | inr f ↦ (let later = nth_id-is_lora zero ns id (rw f at h) in ground (arith, later))
  ]
  nth_id-is_lora (suc i) (n ∷ ns) id h = elim (Bool-cases (is_lora n)) [
    | inl t ↦ (let later = nth_id-is_lora i ns id (rw t at h) in ground (arith, later))
    | inr f ↦ (let later = nth_id-is_lora (suc i) ns id (rw f at h) in ground (arith, later))
  ]

  suggest-MapsTo :
      (nodes : Dict (NodeInfo V)) (p : Purpose) (id : String)
      → suggest nodes p ≡ some (some id)
      → MapsTo nodes (p, id)
  unfolding suggest
  suggest-MapsTo nodes positive_prompt id h =
      first_serving-is_right nodes positive_prompt nodes id h
  suggest-MapsTo nodes negative_prompt id h =
      first_serving-is_right nodes negative_prompt nodes id h
  suggest-MapsTo nodes sampler id h = first_serving-is_right nodes sampler nodes id h
  suggest-MapsTo nodes checkpoint id h = first_serving-is_right nodes checkpoint nodes id h
  suggest-MapsTo nodes latent id h = first_serving-is_right nodes latent nodes id h
  suggest-MapsTo nodes decode id h = first_serving-is_right nodes decode nodes id h
  suggest-MapsTo nodes image id h = first_serving-is_right nodes image nodes id h
  suggest-MapsTo nodes (lora i) id h = nth_id-is_lora i (values nodes) id (cc h)

  collect-MapsTo :
      (nodes : Dict (NodeInfo V)) (ps : List Purpose) (ms : List (Purpose × String))
      → collect nodes ps ≡ some ms
      → All (MapsTo nodes) ms
  unfolding collect
  collect-MapsTo nodes [] ms h = (let empty : [] ≡ ms = cc h in rw (sym empty) tt)
  collect-MapsTo nodes (p ∷ ps) ms h = elim (Option-cases (suggest nodes p)) [
    | inl e ↦ absurd (cc (rw (collect, e) at h))
    | inr (none, e) ↦ elim (Option-cases (collect nodes ps)) [
      | inl f ↦ absurd (cc (rw (collect, e, f) at h))
      | inr (rest, f) ↦
          (let same : rest ≡ ms = cc (rw (collect, e, f) at h) in
            rw (sym same) (collect-MapsTo nodes ps rest f))
    ]
    | inr (some id, e) ↦ elim (Option-cases (collect nodes ps)) [
      | inl f ↦ absurd (cc (rw (collect, e, f) at h))
      | inr (rest, f) ↦
          (let same : (p, id) ∷ rest ≡ ms = cc (rw (collect, e, f) at h) in
            rw (sym same) (suggest-MapsTo nodes p id e, collect-MapsTo nodes ps rest f))
    ]
  ]

  -- Where no node has an empty list as "positive" or "negative" input, `_generate_mappings` returns,
  -- and every purpose that it maps names a node of the type of that purpose. A prompt is mapped only
  -- to an encoder that takes an input from a sampler whose input of that prompt begins with the
  -- encoder.
  pub generate_mappings-MapsTo :
      (nodes : Dict (NodeInfo V))
      → AreFilled nodes
      → (ms : List (Purpose × String)) × (generate_mappings nodes ≡ some ms) × All (MapsTo nodes) ms
  unfolding generate_mappings
  generate_mappings-MapsTo nodes h =
      let (ms, e) = some_of (collect nodes purposes) (collect_returns nodes h purposes) in
      (ms, e, collect-MapsTo nodes purposes ms e)
