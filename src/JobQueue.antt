-- ===== src/JobQueue.antt =====
-- engine/queue.py: JobQueue. `P` is the type of payloads, with the job's metadata and future. Times
-- are whole ticks, and the rate limit is the interval that it leaves between two jobs.
-- asyncio.PriorityQueue is the interface `PriorityQueue`. Waiting for a place is not modelled.
pub mod Order
use comfyui_engine.Prelude.{
  ℕ, ◌+◌, max, Bool, true, false, ◌&&◌, ◌||◌, Option, none, some, ◌≡◌, ltb, leb, ◌==◌,
  if◌then◌else◌,
}

pub record PrioritizedJob (P : Type 0) : Type 0 where
  pub priority : ℕ
  pub created_at : ℕ
  pub payload : P

-- The dataclass's order: by priority, then by time.
unfoldable pub is_before : {P : Type 0} → PrioritizedJob P → PrioritizedJob P → Bool
is_before a b =
    ltb a.priority b.priority || a.priority == b.priority && ltb a.created_at b.created_at

-- asyncio.PriorityQueue as documented, with a place free on `put` and, where there is an item, without
-- waiting on `get`: a queue `Q` of items, of which `get` takes a lowest one, in an order among equal
-- ones that is left open. `count` observes how many of the items pass a test.
pub record PriorityQueue (P Q : Type 0) : Type 0 where
  pub put : PrioritizedJob P → Q → Q
  pub get : Q → Option (PrioritizedJob P × Q)
  pub qsize : Q → ℕ
  pub count : (PrioritizedJob P → Bool) → Q → ℕ
  pub qsize_lem : (q : Q) → qsize q ≡ count (λ k. true) q
  pub count-put :
      (p : PrioritizedJob P → Bool) (j : PrioritizedJob P) (q : Q)
      → count p (put j q) ≡ (if p j then 1 else 0) + count p q
  pub get_none : (p : PrioritizedJob P → Bool) (q : Q) → get q ≡ none → count p q ≡ 0
  pub get_some :
      (p : PrioritizedJob P → Bool) (q : Q) (j : PrioritizedJob P) (rest : Q)
      → get q ≡ some (j, rest)
      → (count p q ≡ (if p j then 1 else 0) + count p rest) × (count (λ k. is_before k j) q ≡ 0)

pub record Queue (Q : Type 0) : Type 0 where
  pub items : Q
  pub max_size : ℕ
  pub interval : Option ℕ
  pub last_dequeue_time : Option ℕ

-- The time at which a job is taken that is asked for at a time.
unfoldable pub taken_at : ℕ → Option ℕ → Option ℕ → ℕ
taken_at now none last = now
taken_at now (some interval) none = now
taken_at now (some interval) (some last) = max now (last + interval)

module _ {P Q : Type 0} (queue : PriorityQueue P Q) where
  -- A queue with the size 0 is never full.
  unfoldable pub is_full : Queue Q → Bool
  is_full q = ltb 0 q.max_size && leb q.max_size (queue.qsize q.items)

  -- `enqueue`; none where the queue stays full until the timeout, which raises QueueFullError.
  unfoldable pub enqueue : ℕ → ℕ → P → Queue Q → Option (Queue Q)
  unfolding is_full
  enqueue now priority payload q =
      if is_full q
      then none
      else some (record q {
        items =
            queue.put (record { priority = priority; created_at = now; payload = payload }) q.items;
      })

  -- `dequeue`: the queue after it, the time and the job; none while the queue is empty.
  unfoldable pub dequeue : ℕ → Queue Q → Option (Queue Q × ℕ × PrioritizedJob P)
  unfolding taken_at
  dequeue now q = elim (queue.get q.items) [
    | none ↦ none
    | some (j, rest) ↦
        (let t = taken_at now q.interval q.last_dequeue_time in
          some (record q { items = rest; last_dequeue_time = some t }, t, j))
  ]
