-- ===== src/Actor/Routing.antt =====
-- The sharded router as one dictionary of actors.
use comfyui_engine.Prelude.{
  ℕ, zero, suc, ◌≡◌, ◌<◌, refl, ap, ◌∙◌, inl, inr, arith, true, Option, none, some, List, [], ◌∷◌,
  String, str_eq, eq_iff, length, ◌==◌, if◌then◌else◌, Dict, lookup, insert, erase, lookup-insert,
  lookup-erase, Option-cases,
}
use comfyui_engine.Actor.Router.{
  Router, shard_at, set_at, get_shard, shard_of, find_actor, record_utilization, set_shard,
  register_actor, unregister_actor,
}

module _ {A : Type 0} where
  shard_at-set_at :
      (i j : ℕ) (d : Dict A) (ds : List (Dict A))
      → j < length ds
      → shard_at i (set_at j d ds) ≡ (if j == i then d else shard_at i ds)
  unfolding shard_at set_at
  shard_at-set_at i j d [] h = ground (arith, h)
  shard_at-set_at zero zero d (e ∷ ds) h = refl
  shard_at-set_at zero (suc j) d (e ∷ ds) h = ground arith
  shard_at-set_at (suc i) zero d (e ∷ ds) h = ground arith
  shard_at-set_at (suc i) (suc j) d (e ∷ ds) h = ground (arith, h, shard_at-set_at i j d ds)

  length-set_at : (i : ℕ) (d : Dict A) (ds : List (Dict A)) → length (set_at i d ds) ≡ length ds
  unfolding set_at
  length-set_at i d [] = refl
  length-set_at zero d (e ∷ ds) = refl
  length-set_at (suc i) d (e ∷ ds) = ap suc (length-set_at i d ds)

-- The calls that change the actors of a router.
pub data Op (A : Type 0) : Type 0 where
  registers : String → A → Op A
  unregisters : String → Op A

-- What they make of a plain dictionary, given by its lookups.
module _ {A : Type 0} where
  unfoldable pub put_new : String → A → Option A → (String → Option A) → String → Option A
  put_new id a (some b) f j = f j
  put_new id a none f j = if str_eq id j then some a else f j

  unfoldable pub apply_plain : Op A → (String → Option A) → String → Option A
  unfolding put_new
  apply_plain (registers id a) f j = put_new id a (f id) f j
  apply_plain (unregisters id) f j = if str_eq id j then none else f j

  unfoldable pub run_plain : List (Op A) → (String → Option A) → String → Option A
  unfolding apply_plain
  run_plain [] f = f
  run_plain (op ∷ ops) f = run_plain ops (apply_plain op f)

module _ {A : Type 0} (hash : String → ℕ) where
  -- The router has a shard, and as many as it says.
  abbrev pub IsValid : Router A → Type 0
  IsValid r = (0 < r.num_shards) × (length r.shards ≡ r.num_shards)

  find_actor-record_utilization :
      {B : Type 0} (id j : String) (b : B) (r : Router A)
      → find_actor hash j (record_utilization hash id b r).0 ≡ find_actor hash j r
  unfolding record_utilization find_actor shard_of get_shard
  find_actor-record_utilization id j b r = ground arith

  get_shard-lt : (id : String) (r : Router A) → IsValid r → get_shard hash id r < length r.shards
  unfolding get_shard
  get_shard-lt id r h = omega (arith, h.0, h.1)

  find_actor-set_shard :
      (id j : String) (d : Dict A) (r : Router A)
      → IsValid r
      → find_actor hash j (set_shard hash id d r)
        ≡ (if get_shard hash id r == get_shard hash j r then lookup j d else find_actor hash j r)
  unfolding find_actor set_shard shard_of get_shard
  find_actor-set_shard id j d r h =
      rw
        (shard_at-set_at (get_shard hash j r) (get_shard hash id r) d r.shards
          (get_shard-lt id r h))
        (ground arith)

  -- An id in the shard of another id is looked up in the same dictionary.
  find_actor_of-same_shard :
      (id j : String) (r : Router A)
      → get_shard hash id r ≡ get_shard hash j r
      → find_actor hash j r ≡ lookup j (shard_of hash id r)
  unfolding find_actor shard_of
  find_actor_of-same_shard id j r e = rw e refl

  insert-find :
      (id j : String) (a : A) (r : Router A)
      → (if get_shard hash id r == get_shard hash j r
          then lookup j (insert id a (shard_of hash id r))
          else find_actor hash j r)
        ≡ (if str_eq id j then some a else find_actor hash j r)
  insert-find id j a r = ground (
    arith,
    eq_iff id j,
    lookup-insert id j a (shard_of hash id r),
    find_actor_of-same_shard id j r,
  )

  erase-find :
      (id j : String) (r : Router A)
      → (if get_shard hash id r == get_shard hash j r
          then lookup j (erase id (shard_of hash id r))
          else find_actor hash j r)
        ≡ (if str_eq id j then none else find_actor hash j r)
  erase-find id j r =
      ground (
        arith,
        eq_iff id j,
        lookup-erase id j (shard_of hash id r),
        find_actor_of-same_shard id j r,
      )

  -- Registering an actor puts it under its id and leaves every other id alone, or changes nothing
  -- where the id is taken.
  pub find_actor-register_actor :
      (id j : String) (a : A) (r : Router A)
      → IsValid r
      → find_actor hash j (register_actor hash id a r).0 ≡ elim (find_actor hash id r) [
        | some b ↦ find_actor hash j r
        | none ↦ if str_eq id j then some a else find_actor hash j r
      ]
  unfolding register_actor
  find_actor-register_actor id j a r h = elim (Option-cases (find_actor hash id r)) [
    | inr (b, e) ↦ rw (register_actor, e) refl
    | inl e ↦
        rw (register_actor, e)
          (find_actor-record_utilization id j true
              (set_shard hash id (insert id a (shard_of hash id r)) r)
            ∙ find_actor-set_shard id j (insert id a (shard_of hash id r)) r h
            ∙ insert-find id j a r)
  ]

  -- Unregistering an actor removes its id and leaves every other id alone.
  pub find_actor-unregister_actor :
      (id j : String) (r : Router A)
      → IsValid r
      → find_actor hash j (unregister_actor hash id r).0
        ≡ (if str_eq id j then none else find_actor hash j r)
  unfolding unregister_actor
  find_actor-unregister_actor id j r h = elim (Option-cases (find_actor hash id r)) [
    | inl e ↦ rw (unregister_actor, e) (ground (arith, e, eq_iff id j))
    | inr (b, e) ↦
        rw (unregister_actor, e)
          (find_actor-record_utilization id j true
              (set_shard hash id (erase id (shard_of hash id r)) r)
            ∙ find_actor-set_shard id j (erase id (shard_of hash id r)) r h
            ∙ erase-find id j r)
  ]

  set_shard-IsValid :
      (id : String) (d : Dict A) (r : Router A) → IsValid r → IsValid (set_shard hash id d r)
  unfolding set_shard
  set_shard-IsValid id d r h = (h.0, length-set_at (get_shard hash id r) d r.shards ∙ h.1)

  record_utilization-IsValid :
      {B : Type 0} (id : String) (b : B) (r : Router A)
      → IsValid r
      → IsValid (record_utilization hash id b r).0
  unfolding record_utilization
  record_utilization-IsValid id b r h = ground (arith, h.0, h.1)

  unfoldable pub apply : Op A → Router A → Router A
  apply (registers id a) r = (register_actor hash id a r).0
  apply (unregisters id) r = (unregister_actor hash id r).0

  unfoldable pub run : List (Op A) → Router A → Router A
  unfolding apply
  run [] r = r
  run (op ∷ ops) r = run ops (apply op r)

  apply-IsValid : (op : Op A) (r : Router A) → IsValid r → IsValid (apply op r)
  unfolding apply register_actor unregister_actor
  apply-IsValid (registers id a) r h = elim (Option-cases (find_actor hash id r)) [
    | inr (b, e) ↦ rw (apply, register_actor, e) h
    | inl e ↦
        rw (apply, register_actor, e)
          (record_utilization-IsValid id true
            (set_shard hash id (insert id a (shard_of hash id r)) r)
            (set_shard-IsValid id (insert id a (shard_of hash id r)) r h))
  ]
  apply-IsValid (unregisters id) r h = elim (Option-cases (find_actor hash id r)) [
    | inl e ↦ rw (apply, unregister_actor, e) h
    | inr (b, e) ↦
        rw (apply, unregister_actor, e)
          (record_utilization-IsValid id true (set_shard hash id (erase id (shard_of hash id r)) r)
            (set_shard-IsValid id (erase id (shard_of hash id r)) r h))
  ]

  apply-apply_plain :
      (op : Op A) (r : Router A) (f : String → Option A)
      → IsValid r
      → ((j : String) → find_actor hash j r ≡ f j)
      → (j : String) → find_actor hash j (apply op r) ≡ apply_plain op f j
  unfolding apply apply_plain put_new
  apply-apply_plain (registers id a) r f h e j = elim (Option-cases (f id)) [
    | inl new ↦
        find_actor-register_actor id j a r h ∙ rw (e id, apply_plain, new, put_new, e j) refl
    | inr (b, old) ↦
        find_actor-register_actor id j a r h ∙ rw (e id, apply_plain, old, put_new, e j) refl
  ]
  apply-apply_plain (unregisters id) r f h e j =
      find_actor-unregister_actor id j r h ∙ ground (arith, e j)

  -- The shards together are one dictionary, whatever the hash: after any registrations and
  -- unregistrations, the actor found under an id is the one that a plain dictionary would hold, if
  -- this was so before and the router has at least one shard and as many as it says. A registration
  -- under an id that is taken changes nothing.
  pub run-run_plain :
      (ops : List (Op A)) (r : Router A) (f : String → Option A)
      → IsValid r
      → ((j : String) → find_actor hash j r ≡ f j)
      → (j : String) → find_actor hash j (run ops r) ≡ run_plain ops f j
  unfolding run run_plain
  run-run_plain [] r f h e = e
  run-run_plain (op ∷ ops) r f h e =
      run-run_plain ops (apply op r) (apply_plain op f) (apply-IsValid op r h)
        (apply-apply_plain op r f h e)
