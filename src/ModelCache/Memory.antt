-- ===== src/ModelCache/Memory.antt =====
-- The account of memory and of models, along any sequence of steps.
use comfyui_engine.Prelude.{
  ℕ, zero, suc, ◌+◌, ◌/◌, ◌≡◌, inl, inr, arith, Bool, true, false, some, List, [], ◌∷◌, ◌++◌,
  String, length, take, ltb, Dict, lookup, Bool-cases, Option-cases, length-append,
}
use comfyui_engine.ModelCache.{
  Info, Cache, Outcome, returns, deadlock, delete, select_victim, unload, unload_model, needs_space,
  count_eviction, ensure_space, touch, count_hit, count_miss, find_model, add_model, store_model,
  unload_each, keys, clear, relieve,
}

module _ {M : Type 0} where
  -- The sum of the footprints.
  abbrev pub total : Dict (Info M) → ℕ
  total [] = 0
  total ((k, i) ∷ d) = i.footprint + total d

  total-append : (d e : Dict (Info M)) → total (d ++ e) ≡ total d + total e
  total-append [] e = omega arith
  total-append ((k, i) ∷ d) e = omega (arith, total-append d e)

  -- Deleting a key takes away one entry, that of the key.
  delete_account :
      (name : String) (i : Info M) (d : Dict (Info M))
      → lookup name d ≡ some i
      → (total (delete name d) + i.footprint ≡ total d) × (length (delete name d) + 1 ≡ length d)
  unfolding lookup delete
  delete_account name i [] e = ground (arith, e)
  delete_account name i ((k, x) ∷ d) e = ground (arith, e, delete_account name i d)

  -- Moving an entry to the end, used once more, changes neither the memory nor the number.
  moved_account :
      (now : ℕ) (name : String) (i : Info M) (d : Dict (Info M))
      → lookup name d ≡ some i
      → (total (delete name d ++ (name, touch now i) ∷ []) ≡ total d)
        × (length (delete name d ++ (name, touch now i) ∷ []) ≡ length d)
  unfolding touch
  moved_account now name i d e = (
    omega
        (arith, delete_account name i d e, total-append (delete name d) ((name, touch now i) ∷ [])),
    omega (
      arith,
      delete_account name i d e,
      length-append (delete name d) ((name, touch now i) ∷ []),
    ),
  )

  -- The memory in use is the sum of the footprints of the models in the cache, the statistics say
  -- so, and the models that were loaded are those unloaded and those in the cache.
  abbrev pub IsAccounted : Cache M → Type 0
  IsAccounted c =
      (c.current_memory ≡ total c.cache)
      × (c.stats.memory_used ≡ total c.cache)
      × (c.stats.total_loaded ≡ c.stats.total_unloaded + length c.cache)

  unload-IsAccounted : (name : String) (c : Cache M) → IsAccounted c → IsAccounted (unload name c)
  unfolding unload
  unload-IsAccounted name c h = elim (Option-cases (lookup name c.cache)) [
    | inl e ↦ rw (unload, e) h
    | inr (i, e) ↦
        rw (unload, e)
          (
            ground (arith, h, delete_account name i c.cache e),
            ground (arith, h, delete_account name i c.cache e),
            ground (arith, h, delete_account name i c.cache e),
          )
  ]

  unload_each-IsAccounted :
      (ks : List String) (c : Cache M) → IsAccounted c → IsAccounted (unload_each ks c)
  unfolding unload_each
  unload_each-IsAccounted [] c h = h
  unload_each-IsAccounted (k ∷ ks) c h =
      unload_each-IsAccounted ks (unload k c) (unload-IsAccounted k c h)

  find_model-IsAccounted :
      (now : ℕ) (name : String) (c : Cache M)
      → IsAccounted c
      → IsAccounted (find_model now name c).0
  unfolding find_model count_hit count_miss touch
  find_model-IsAccounted now name c h = elim (Option-cases (lookup name c.cache)) [
    | inl e ↦ rw (find_model, e) h
    | inr (i, e) ↦
        rw (find_model, e)
          (
            omega (arith, h.0, (moved_account now name i c.cache e).0),
            omega (arith, h.1, (moved_account now name i c.cache e).0),
            omega (arith, h.2, (moved_account now name i c.cache e).1),
          )
  ]

  add_model-IsAccounted :
      (name : String) (i : Info M) (c : Cache M) → IsAccounted c → IsAccounted (add_model name i c)
  unfolding add_model
  add_model-IsAccounted name i c h = (
    ground (arith, h, total-append c.cache ((name, i) ∷ [])),
    ground (arith, h, total-append c.cache ((name, i) ∷ [])),
    ground (arith, h, length-append c.cache ((name, i) ∷ [])),
  )

-- What a step ends in, if it ends.
abbrev pub After : {A : Type 0} → (A → Type 0) → Outcome A → Type 0
After P (returns a) = P a
After P deadlock = Unit

After-bind :
    {A B : Type 0} (P : A → Type 0) (Q : B → Type 0) (r : Outcome A) (f : A → Outcome B)
    → After P r
    → ((a : A) → P a → After Q (f a))
    → After Q (elim r [ deadlock ↦ deadlock | returns a ↦ f a ])
After-bind P Q (returns a) f h k = k a h
After-bind P Q deadlock f h k = tt

module _ {M : Type 0} where
  unload_model-IsAccounted :
      (held : Bool) (name : String) (c : Cache M)
      → IsAccounted c
      → After IsAccounted (unload_model held name c)
  unfolding unload_model
  unload_model-IsAccounted true name c h = tt
  unload_model-IsAccounted false name c h = unload-IsAccounted name c h

  ensure_space-IsAccounted :
      (held : Bool) (now needed n : ℕ) (c : Cache M)
      → IsAccounted c
      → After IsAccounted (ensure_space held now needed n c)
  unfolding ensure_space count_eviction
  ensure_space-IsAccounted held now needed zero c h = h
  ensure_space-IsAccounted held now needed (suc n) c h = elim (Bool-cases (needs_space needed c)) [
    | inr e ↦ rw (ensure_space, e) h
    | inl e ↦ elim (Option-cases (select_victim now c)) [
      | inl v ↦ rw (ensure_space, e, v) h
      | inr (victim, v) ↦
          rw (ensure_space, e, v)
            (After-bind IsAccounted IsAccounted (unload_model held victim c)
              (λ c'. ensure_space held now needed n (count_eviction c'))
              (unload_model-IsAccounted held victim c h)
              (λ c' h'. ensure_space-IsAccounted held now needed n (count_eviction c') h'))
    ]
  ]

  store_model-IsAccounted :
      (now : ℕ) (name : String) (model : M) (size : ℕ) (c : Cache M)
      → IsAccounted c
      → After (λ r. IsAccounted r.0) (store_model now name model size c)
  unfolding store_model
  store_model-IsAccounted now name model size c h = elim (Option-cases (lookup name c.cache)) [
    | inr (i, e) ↦ rw (store_model, e) h
    | inl e ↦
        (let i : Info M = record {
          model = model;
          last_used = now;
          use_count = 1;
          footprint = size;
        } in
          rw (store_model, e)
            (After-bind IsAccounted (λ r. IsAccounted r.0)
              (ensure_space true now size (length c.cache) c)
              (λ c'. returns (add_model name i c', i))
              (ensure_space-IsAccounted true now size (length c.cache) c h)
              (λ c' h'. add_model-IsAccounted name i c' h')))
  ]

  relieve-IsAccounted :
      (percent : ℕ) (c : Cache M) → IsAccounted c → IsAccounted (relieve percent c)
  unfolding relieve
  relieve-IsAccounted percent c h = elim (Bool-cases (ltb 90 percent)) [
    | inl e ↦
        rw (relieve, e) (unload_each-IsAccounted (take (length c.cache / 2) (keys c.cache)) c h)
    | inr e ↦ elim (Bool-cases (ltb 80 percent)) [
      | inl f ↦ rw (relieve, e, f) (unload_each-IsAccounted (take 1 (keys c.cache)) c h)
      | inr f ↦ rw (relieve, e, f) h
    ]
  ]

-- The steps of the tasks that share a cache.
pub data Op (M : Type 0) : Type 0 where
  finds unloads : String → Op M
  stores : String → M → ℕ → Op M
  relieves : ℕ → Op M
  clears : Op M

module _ {M : Type 0} where
  unfoldable pub apply : Op M → ℕ → Cache M → Outcome (Cache M)
  unfolding find_model store_model unload relieve clear
  apply (finds name) now c = returns (find_model now name c).0
  apply (unloads name) now c = returns (unload name c)
  apply (stores name model size) now c = elim (store_model now name model size c) [
    | deadlock ↦ deadlock
    | returns r ↦ returns r.0
  ]
  apply (relieves percent) now c = returns (relieve percent c)
  apply clears now c = returns (clear c)

  unfoldable pub run : List (Op M × ℕ) → Cache M → Outcome (Cache M)
  unfolding apply
  run [] c = returns c
  run ((op, now) ∷ ops) c = elim (apply op now c) [ deadlock ↦ deadlock | returns c' ↦ run ops c' ]

  apply-IsAccounted :
      (op : Op M) (now : ℕ) (c : Cache M) → IsAccounted c → After IsAccounted (apply op now c)
  unfolding apply clear
  apply-IsAccounted (finds name) now c h = find_model-IsAccounted now name c h
  apply-IsAccounted (unloads name) now c h = unload-IsAccounted name c h
  apply-IsAccounted (stores name model size) now c h =
      After-bind (λ r. IsAccounted r.0) IsAccounted (store_model now name model size c)
        (λ r. returns r.0) (store_model-IsAccounted now name model size c h) (λ r h'. h')
  apply-IsAccounted (relieves percent) now c h = relieve-IsAccounted percent c h
  apply-IsAccounted clears now c h = unload_each-IsAccounted (keys c.cache) c h

  -- Whatever sequence of hits, misses, loads, evictions, unloadings and relief rounds the tasks
  -- run: where it does not end in a deadlock, the memory in use is the sum of the footprints in the
  -- cache, the statistics say so, and every model that was loaded was unloaded or is in the cache,
  -- if this held at the start.
  pub run-IsAccounted :
      (ops : List (Op M × ℕ)) (c : Cache M) → IsAccounted c → After IsAccounted (run ops c)
  unfolding run
  run-IsAccounted [] c h = h
  run-IsAccounted ((op, now) ∷ ops) c h =
      After-bind IsAccounted IsAccounted (apply op now c) (λ c'. run ops c')
        (apply-IsAccounted op now c h) (λ c' h'. run-IsAccounted ops c' h')
