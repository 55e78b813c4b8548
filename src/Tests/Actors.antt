-- ===== src/Tests/Actors.antt =====
-- Tests and instances for engine/actor/base.py and engine/actor/router.py.
use comfyui_engine.Prelude.{
  ℕ, ◌≡◌, refl, arith, inl, inr, Bool, true, false, none, List, [], ◌∷◌, String, str_eq, count_if,
  All, Bool-cases, if◌then◌else◌, lookup, insert,
}
use comfyui_engine.Actor.{Message, Actor, HeapQueue, critical, low, is_before, next_message}
use comfyui_engine.Actor.Mailbox.{Takes, next_message-Takes}
use comfyui_engine.Actor.Router.{Router, make_router, find_actor, register_actor, get_actor_count}
use comfyui_engine.Actor.Routing.{registers, unregisters, run, run_plain, run-run_plain}

-- A heap queue that keeps a sorted list.
module _ {P : Type 0} where
  insert_sorted : Message P → List (Message P) → List (Message P)
  insert_sorted x [] = x ∷ []
  insert_sorted x (y ∷ ys) =
      let rest = insert_sorted x ys in if is_before y x then y ∷ rest else x ∷ y ∷ ys

  abbrev NoneBefore : Message P → List (Message P) → Type 0
  NoneBefore x ys = All (λ y. is_before y x ≡ false) ys

  abbrev IsSorted : List (Message P) → Type 0
  IsSorted [] = Unit
  IsSorted (x ∷ xs) = NoneBefore x xs × IsSorted xs

  insert_sorted-count :
      (p : Message P → Bool) (x : Message P) (xs : List (Message P))
      → count_if p (insert_sorted x xs) ≡ count_if p (x ∷ xs)
  unfolding insert_sorted
  insert_sorted-count p x [] = refl
  insert_sorted-count p x (y ∷ ys) = ground (arith, insert_sorted-count p x ys)

  before_asym : (x y : Message P) → is_before y x ≡ true → is_before x y ≡ false
  unfolding is_before
  before_asym x y h = ground (arith, h)

  before_trans :
      (x y z : Message P) → is_before y x ≡ false → is_before z y ≡ false → is_before z x ≡ false
  unfolding is_before
  before_trans x y z h k = ground (arith, h, k)

  NoneBefore-trans :
      (x y : Message P) (zs : List (Message P))
      → is_before y x ≡ false
      → NoneBefore y zs
      → NoneBefore x zs
  NoneBefore-trans x y [] h k = tt
  NoneBefore-trans x y (z ∷ zs) h k = (before_trans x y z h k.0, NoneBefore-trans x y zs h k.1)

  insert_sorted-NoneBefore :
      (z x : Message P) (ys : List (Message P))
      → is_before x z ≡ false
      → NoneBefore z ys
      → NoneBefore z (insert_sorted x ys)
  unfolding insert_sorted
  insert_sorted-NoneBefore z x [] h k = (h, tt)
  insert_sorted-NoneBefore z x (y ∷ ys) h k = elim (Bool-cases (is_before y x)) [
    | inl e ↦ rw e (k.0, insert_sorted-NoneBefore z x ys h k.1)
    | inr e ↦ rw e (h, k)
  ]

  insert_sorted-IsSorted :
      (x : Message P) (xs : List (Message P)) → IsSorted xs → IsSorted (insert_sorted x xs)
  unfolding insert_sorted
  insert_sorted-IsSorted x [] h = (tt, tt)
  insert_sorted-IsSorted x (y ∷ ys) h = elim (Bool-cases (is_before y x)) [
    | inl e ↦
        rw e
          (insert_sorted-NoneBefore y x ys (before_asym x y e) h.0, insert_sorted-IsSorted x ys h.1)
    | inr e ↦ rw e ((e, NoneBefore-trans x y ys e h.0), h)
  ]

abbrev sorted_queue : HeapQueue (Message ℕ) is_before
sorted_queue = record {
  push = insert_sorted;
  pop_rest = λ x xs. xs;
  IsHeap = IsSorted;
  empty-IsHeap = tt;
  push-count = insert_sorted-count;
  pop_rest-count = λ p x xs. refl;
  push-IsHeap = insert_sorted-IsSorted;
  pop_rest-IsHeap = λ x xs h. h.1;
  first_least = λ x xs h. h.0;
}

abbrev urgent : Message ℕ
urgent = record {
  id = "u";
  sender = none;
  recipient = "a";
  payload = 1;
  priority = critical;
  timestamp = 5;
  ttl = 30;
}

abbrev casual : Message ℕ
casual = record urgent { id = "c"; priority = low; timestamp = 0 }

abbrev busy : Actor ℕ
busy = record {
  actor_id = "a";
  mailbox_size = 3;
  mailbox = urgent ∷ casual ∷ [];
  size_in_stats = 2;
}

next_message-Takes_example :
    Takes sorted_queue 31 (λ x. true) busy (next_message sorted_queue 31 busy)
next_message-Takes_example = next_message-Takes sorted_queue 31 (λ x. true) busy

-- A hash that sends the empty id to shard 0 and every other to shard 16.
abbrev hash16 : String → ℕ
hash16 s = if str_eq s "" then 0 else 16

abbrev two_shards : Router ℕ
two_shards = record {
  num_shards = 2;
  shards = [] ∷ [] ∷ [];
  messages_routed = 0;
  messages_failed = 0;
  shard_utilization = 0 ∷ 0 ∷ [];
}

run-run_plain_example :
    find_actor hash16 "x"
      (run hash16 (registers "x" 4 ∷ registers "" 5 ∷ unregisters "" ∷ []) two_shards)
    ≡ run_plain
        (registers "x" 4 ∷ registers "" 5 ∷ unregisters "" ∷ [])
        (λ j. find_actor hash16 j two_shards)
        "x"
run-run_plain_example =
    run-run_plain hash16 (registers "x" 4 ∷ registers "" 5 ∷ unregisters "" ∷ []) two_shards
      (λ j. find_actor hash16 j two_shards) (omega arith, refl) (λ j. refl) "x"

-- With 17 shards, registering in the last raises, after the actor was registered.
register_past_statistics :
    ((register_actor {A = ℕ} hash16 "x" 4 (make_router 17)).1 ≡ none)
    × (get_actor_count (register_actor {A = ℕ} hash16 "x" 4 (make_router 17)).0 ≡ 1)
unfolding register_actor make_router get_actor_count lookup insert
register_past_statistics = (refl, refl)
