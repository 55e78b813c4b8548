-- ===== src/ModelCache/Eviction.antt =====
-- When the cache makes room, and what becomes of the task that asks for it.
use comfyui_engine.Prelude.{
  ℕ, zero, suc, ◌≡◌, refl, inl, inr, arith, Bool, true, false, ◌&&◌, Option, none, some, [], ◌∷◌,
  String, length, ltb, if◌then◌else◌, Dict, lookup, Bool-cases,
}
use comfyui_engine.ModelCache.{
  Info, Policy, lru, lru_memory, freq, other_policy, Cache, returns, deadlock, exceeds, is_below,
  scan_scores, scan_uses, first_key, victim_by, select_victim, unload_model, needs_space,
  ensure_space, add_model, store_model,
}

-- The policies under which a victim is found.
unfoldable pub finds_victims : Policy → Bool
finds_victims lru = true
finds_victims lru_memory = false
finds_victims freq = true
finds_victims other_policy = true

module _ {M : Type 0} where
  -- No score exceeds an infinite one, so that the first victim stays the last.
  scan_scores-none : (now : ℕ) (d : Dict (Info M)) → scan_scores now none none d ≡ none
  unfolding scan_scores exceeds
  scan_scores-none now [] = refl
  scan_scores-none now ((k, i) ∷ d) = scan_scores-none now d

  scan_uses-some :
      (best : Option ℕ) (v : String) (d : Dict (Info M))
      → (w : String) × (scan_uses best (some v) d ≡ some w)
  unfolding scan_uses
  scan_uses-some best v [] = (v, refl)
  scan_uses-some best v ((k, i) ∷ d) = elim (Bool-cases (is_below i.use_count best)) [
    | inl e ↦ rw (scan_uses, e) (scan_uses-some (some i.use_count) k d)
    | inr e ↦ rw (scan_uses, e) (scan_uses-some best v d)
  ]

  -- A policy of these finds a victim in a cache that is not empty.
  victim_by-some :
      (p : Policy) (now : ℕ) (d : Dict (Info M))
      → finds_victims p ≡ true
      → ltb 0 (length d) ≡ true
      → (w : String) × (victim_by p now d ≡ some w)
  unfolding victim_by first_key finds_victims scan_uses is_below
  victim_by-some p now [] f h = absurd (ground (arith, h))
  victim_by-some lru now ((k, i) ∷ d) f h = (k, refl)
  victim_by-some lru_memory now ((k, i) ∷ d) f h = absurd (ground (arith, f))
  victim_by-some freq now ((k, i) ∷ d) f h = scan_uses-some (some i.use_count) k d
  victim_by-some other_policy now ((k, i) ∷ d) f h = (k, refl)

  victim_by-none :
      (p : Policy) (now : ℕ) (d : Dict (Info M))
      → finds_victims p ≡ false
      → victim_by p now d ≡ none
  unfolding victim_by finds_victims
  victim_by-none lru now d f = absurd (ground (arith, f))
  victim_by-none lru_memory now d f = scan_scores-none now d
  victim_by-none freq now d f = absurd (ground (arith, f))
  victim_by-none other_policy now d f = absurd (ground (arith, f))

  needs_space-nonempty :
      (needed : ℕ) (c : Cache M) → needs_space needed c ≡ true → ltb 0 (length c.cache) ≡ true
  unfolding needs_space
  needs_space-nonempty needed c h = ground (arith, h)

  -- `_ensure_space` under the lock: without room it blocks where the policy finds a victim, and
  -- lets the cache outgrow its limits where it finds none.
  ensure_space_held :
      (now needed n : ℕ) (c : Cache M)
      → length c.cache ≡ n
      → ensure_space true now needed n c
        ≡ (if needs_space needed c && finds_victims c.policy then deadlock else returns c)
  unfolding ensure_space
  ensure_space_held now needed zero c e = ground (arith, e, needs_space-nonempty needed c)
  ensure_space_held now needed (suc n) c e = elim (Bool-cases (needs_space needed c)) [
    | inr room ↦ rw (ensure_space, room) refl
    | inl full ↦ elim (Bool-cases (finds_victims c.policy)) [
      | inr f ↦
          rw (ensure_space, full, f, select_victim, victim_by-none c.policy now c.cache f) refl
      | inl f ↦
          (let v = victim_by-some c.policy now c.cache f (needs_space-nonempty needed c full) in
            rw (ensure_space, full, f, select_victim, v.1, unload_model) refl)
    ]
  ]

  abbrev pub entry : ℕ → M → ℕ → Info M
  entry now model size = record { model = model; last_used = now; use_count = 1; footprint = size }

  -- A model that is not in the cache is stored at once where there is room. Where the cache would
  -- have to make room, the default policy "lru_memory" finds no victim and stores the model beyond
  -- the limits; every other policy finds one, and the task waits for ever for the lock that it
  -- holds. So no call of `get_model` ever evicts a model.
  pub store_model_lem :
      (now : ℕ) (name : String) (model : M) (size : ℕ) (c : Cache M)
      → lookup name c.cache ≡ none
      → store_model now name model size c ≡ (
          if needs_space size c && finds_victims c.policy
          then deadlock
          else returns (add_model name (entry now model size) c, entry now model size))
  unfolding store_model
  store_model_lem now name model size c e =
      elim (Bool-cases (needs_space size c && finds_victims c.policy)) [
        | inl b ↦ rw (store_model, e, ensure_space_held now size (length c.cache) c refl, b) refl
        | inr b ↦ rw (store_model, e, ensure_space_held now size (length c.cache) c refl, b) refl
      ]
