-- ===== src/Actor.antt =====
-- engine/actor/base.py: the messages and the mailbox of an actor. `P` is the type of payloads;
-- times are whole seconds. The module heapq is the interface `HeapQueue`. The lock of the mailbox
-- makes `enqueue`, and the taking of a message in `_mailbox_processor`, one step each, at one time.
pub mod Mailbox
pub mod Ordering
pub mod Router
pub mod Routing
use comfyui_engine.Prelude.{
  ℕ, zero, suc, ◌+◌, ◌≡◌, Bool, true, false, not, Option, none, some, List, [], ◌∷◌, String, length,
  keep, count_if, All, ltb, leb, ◌==◌, if◌then◌else◌,
}

pub data Priority : Type 0 where
  critical high normal low background : Priority

-- The value of a member of the enumeration.
abbrev pub rank : Priority → ℕ
rank critical = 0
rank high = 1
rank normal = 2
rank low = 3
rank background = 4

pub record Message (P : Type 0) : Type 0 where
  pub id : String
  pub sender : Option String
  pub recipient : String
  pub payload : P
  pub priority : Priority
  pub timestamp : ℕ
  pub ttl : ℕ

pub record Actor (P : Type 0) : Type 0 where
  pub actor_id : String
  pub mailbox_size : ℕ
  pub mailbox : List (Message P)
  pub size_in_stats : ℕ

-- heapq, as far as it is documented: `push` and the rest of a heap after its first element is
-- popped keep the elements, and keep a list a heap, in which no element is before the first.
pub record HeapQueue (A : Type 0) (before : A → A → Bool) : Type 1 where
  pub push : A → List A → List A
  pub pop_rest : A → List A → List A
  pub IsHeap : List A → Type 0
  pub empty-IsHeap : IsHeap []
  pub push-count :
      (p : A → Bool) (x : A) (xs : List A) → count_if p (push x xs) ≡ count_if p (x ∷ xs)
  pub pop_rest-count :
      (p : A → Bool) (x : A) (xs : List A) → count_if p (pop_rest x xs) ≡ count_if p xs
  pub push-IsHeap : (x : A) (xs : List A) → IsHeap xs → IsHeap (push x xs)
  pub pop_rest-IsHeap : (x : A) (xs : List A) → IsHeap (x ∷ xs) → IsHeap (pop_rest x xs)
  pub first_least : (x : A) (xs : List A) → IsHeap (x ∷ xs) → All (λ y. before y x ≡ false) xs

module _ {P : Type 0} where
  unfoldable pub is_expired : ℕ → Message P → Bool
  is_expired now m = ltb (m.timestamp + m.ttl) now

  unfoldable pub is_live : ℕ → Message P → Bool
  unfolding is_expired
  is_live now m = not (is_expired now m)

  -- `__lt__`
  unfoldable pub is_before : Message P → Message P → Bool
  is_before a b =
      if rank a.priority == rank b.priority
      then ltb a.timestamp b.timestamp
      else ltb (rank a.priority) (rank b.priority)

module _ {P : Type 0} (heap : HeapQueue (Message P) is_before) where
  -- `enqueue`: the actor after it, and the result.
  unfoldable pub enqueue : ℕ → Message P → Actor P → Actor P × Bool
  unfolding is_live
  enqueue now m a =
      let box = heap.push m (keep (is_live now) a.mailbox) in
      if leb a.mailbox_size (length a.mailbox)
      then (a, false)
      else (record a { mailbox = box; size_in_stats = length box }, true)

  -- The loop of `_mailbox_processor` that skips expired messages, for a number of rounds.
  unfoldable pub skip_expired : ℕ → ℕ → List (Message P) → List (Message P)
  unfolding is_expired
  skip_expired now zero box = box
  skip_expired now (suc n) [] = []
  skip_expired now (suc n) (m ∷ box) =
      let rest = skip_expired now n (heap.pop_rest m box) in
      if is_expired now m then rest else m ∷ box

  unfoldable pub pop_message : List (Message P) → Actor P → Actor P × Option (Message P)
  pop_message [] a = (record a { mailbox = [] }, none)
  pop_message (m ∷ box) a = (
    record a { mailbox = heap.pop_rest m box; size_in_stats = length (heap.pop_rest m box) },
    some m,
  )

  -- The taking of a message in `_mailbox_processor`.
  unfoldable pub next_message : ℕ → Actor P → Actor P × Option (Message P)
  unfolding skip_expired pop_message
  next_message now a = pop_message (skip_expired now (length a.mailbox) a.mailbox) a
