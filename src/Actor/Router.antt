-- ===== src/Actor/Router.antt =====
-- engine/actor/router.py: the sharded router. The hash of an actor id is a parameter. A shard's lock
-- makes the code under it one step. The statistics of utilization are a list whose length the
-- code fixes at 16, and writing past its end raises, which a result of none stands for. The
-- average of routing times is left out.
use comfyui_engine.Prelude.{
  ℕ, zero, suc, ◌+◌, ◌%◌, Bool, true, false, Option, none, some, List, [], ◌∷◌, String, str_eq,
  length, replicate, ltb, if◌then◌else◌, map, Dict, lookup, insert, erase,
}
use comfyui_engine.Actor.{Message, Actor, HeapQueue, is_before, enqueue}

-- Indexing and assignment to an index, which the callers keep within bounds.
module _ {A : Type 0} where
  unfoldable pub shard_at : ℕ → List (Dict A) → Dict A
  shard_at i [] = []
  shard_at zero (d ∷ ds) = d
  shard_at (suc i) (d ∷ ds) = shard_at i ds

  unfoldable pub set_at : ℕ → A → List A → List A
  set_at i x [] = []
  set_at zero x (y ∷ ys) = x ∷ ys
  set_at (suc i) x (y ∷ ys) = y ∷ set_at i x ys

pub record Router (A : Type 0) : Type 0 where
  pub num_shards : ℕ
  pub shards : List (Dict A)
  pub messages_routed : ℕ
  pub messages_failed : ℕ
  pub shard_utilization : List ℕ

-- `__init__`, with the statistics' default of 16 shards.
unfoldable pub make_router : {A : Type 0} → ℕ → Router A
make_router n = record {
  num_shards = n;
  shards = replicate n [];
  messages_routed = 0;
  messages_failed = 0;
  shard_utilization = replicate 16 0;
}

module _ {A : Type 0} (hash : String → ℕ) where
  unfoldable pub get_shard : String → Router A → ℕ
  get_shard key r = hash key % r.num_shards

  unfoldable pub shard_of : String → Router A → Dict A
  unfolding get_shard shard_at
  shard_of id r = shard_at (get_shard id r) r.shards

  -- The actor under an id, in the shard of the id.
  unfoldable pub find_actor : String → Router A → Option A
  unfolding shard_of lookup
  find_actor id r = lookup id (shard_of id r)

  -- `self._stats.shard_utilization[shard_index] = len(shard_dict)`, and then the result.
  unfoldable pub record_utilization : {B : Type 0} → String → B → Router A → Router A × Option B
  unfolding get_shard shard_of set_at
  record_utilization id result r =
      if ltb (get_shard id r) (length r.shard_utilization)
      then (
        record r {
          shard_utilization = set_at (get_shard id r) (length (shard_of id r)) r.shard_utilization;
        },
        some result,
      )
      else (r, none)

  unfoldable pub set_shard : String → Dict A → Router A → Router A
  unfolding get_shard set_at
  set_shard id d r = record r { shards = set_at (get_shard id r) d r.shards }

  -- The router after each method, and the result; none where the method raises.
  unfoldable pub get_actor : String → Router A → Router A × Option (Option A)
  unfolding record_utilization find_actor
  get_actor id r = record_utilization id (find_actor id r) r

  unfoldable pub register_actor : String → A → Router A → Router A × Option Bool
  unfolding find_actor set_shard insert record_utilization
  register_actor id a r = elim (find_actor id r) [
    | some b ↦ (r, some false)
    | none ↦ record_utilization id true (set_shard id (insert id a (shard_of id r)) r)
  ]

  unfoldable pub unregister_actor : String → Router A → Router A × Option Bool
  unfolding find_actor set_shard erase record_utilization
  unregister_actor id r = elim (find_actor id r) [
    | none ↦ (r, some false)
    | some b ↦ record_utilization id true (set_shard id (erase id (shard_of id r)) r)
  ]

unfoldable pub total_length : {A : Type 0} → List (Dict A) → ℕ
total_length [] = 0
total_length (d ∷ ds) = length d + total_length ds

unfoldable pub get_actor_count : {A : Type 0} → Router A → ℕ
unfolding total_length
get_actor_count r = total_length r.shards

unfoldable pub get_shard_stats : {A : Type 0} → Router A → List ℕ
get_shard_stats r = map length r.shards

module _ {P : Type 0} (heap : HeapQueue (Message P) is_before) (hash : String → ℕ) where
  -- `route_message`, after `get_actor`: the exceptions are caught, and count as failures.
  unfoldable pub deliver :
      ℕ
      → String
      → Message P
      → Router (Actor P) × Option (Option (Actor P))
      → Router (Actor P) × Bool
  unfolding enqueue set_shard shard_of insert
  deliver now id m (r, none) = (record r { messages_failed = r.messages_failed + 1 }, false)
  deliver now id m (r, some none) = (record r { messages_failed = r.messages_failed + 1 }, false)
  deliver now id m (r, some (some a)) =
      let sent = enqueue heap now m a in
      let r' = set_shard hash id (insert id sent.0 (shard_of hash id r)) r in
      if sent.1
      then (record r' { messages_routed = r.messages_routed + 1 }, true)
      else (record r' { messages_failed = r.messages_failed + 1 }, false)

  unfoldable pub route_message : ℕ → String → Message P → Router (Actor P) → Router (Actor P) × Bool
  unfolding deliver get_actor
  route_message now id m r = deliver now id m (get_actor hash id r)

-- The test that skips the sender.
unfoldable pub is_excluded : Option String → String → Bool
is_excluded none id = false
is_excluded (some sender) id = str_eq id sender

-- One shard's turn, and all, of `broadcast_message`: the actors after it and the number of those
-- that took the message. `new_id` gives the id of the copy for each recipient.
module _ {P : Type 0} (heap : HeapQueue (Message P) is_before) (new_id : String → String) where
  unfoldable pub broadcast_shard :
      ℕ → Message P → Option String → Dict (Actor P) → Dict (Actor P) × ℕ
  unfolding enqueue is_excluded
  broadcast_shard now m skipped [] = ([], 0)
  broadcast_shard now m skipped ((id, a) ∷ d) =
      let rest = broadcast_shard now m skipped d in
      let sent = enqueue heap now (record m { id = new_id id; recipient = id }) a in
      if is_excluded skipped id
      then ((id, a) ∷ rest.0, rest.1)
      else ((id, sent.0) ∷ rest.0, (if sent.1 then 1 else 0) + rest.1)

  unfoldable pub broadcast_shards :
      ℕ → Message P → Option String → List (Dict (Actor P)) → List (Dict (Actor P)) × ℕ
  unfolding broadcast_shard
  broadcast_shards now m skipped [] = ([], 0)
  broadcast_shards now m skipped (d ∷ ds) =
      let first = broadcast_shard now m skipped d in
      let rest = broadcast_shards now m skipped ds in (first.0 ∷ rest.0, first.1 + rest.1)

  unfoldable pub broadcast_message :
      ℕ → Message P → Option String → Router (Actor P) → Router (Actor P) × ℕ
  unfolding broadcast_shards
  broadcast_message now m skipped r = (
    record r { shards = (broadcast_shards now m skipped r.shards).0 },
    (broadcast_shards now m skipped r.shards).1,
  )
