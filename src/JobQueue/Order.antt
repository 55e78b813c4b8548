-- ===== src/JobQueue/Order.antt =====
-- Which jobs the queue gives out, in which order, and how many it holds.
use comfyui_engine.Prelude.{
  ℕ, ◌+◌, ◌≡◌, ◌≤◌, ◌<◌, Bool, ◌&&◌, ◌||◌, none, some, List, [], ◌∷◌, ltb, ◌==◌, if◌then◌else◌,
}
use comfyui_engine.JobQueue.{PrioritizedJob, PriorityQueue, Queue, enqueue, dequeue}

pub data Op (P : Type 0) : Type 0 where
  enqueues : ℕ → P → Op P
  dequeues : Op P

-- What a caller sees: a job entered or was refused, or was taken at a time, or nothing waits.
pub data Result (P : Type 0) : Type 0 where
  entered refused : Result P
  taken : ℕ → PrioritizedJob P → Result P
  waits : Result P

-- How many jobs that pass a test entered, with the priority, the payload and the time of their calls.
abbrev pub count_entered :
    {P : Type 0} → (PrioritizedJob P → Bool) → List (Op P × ℕ) → List (Result P) → ℕ
count_entered p [] results = 0
count_entered p ((op, now) ∷ ops) [] = 0
count_entered p ((enqueues priority payload, now) ∷ ops) (entered ∷ results) =
    (if p (record { priority = priority; created_at = now; payload = payload }) then 1 else 0)
    + count_entered p ops results
count_entered p ((enqueues priority payload, now) ∷ ops) (refused ∷ results) =
    count_entered p ops results
count_entered p ((enqueues priority payload, now) ∷ ops) (taken t j ∷ results) =
    count_entered p ops results
count_entered p ((enqueues priority payload, now) ∷ ops) (waits ∷ results) =
    count_entered p ops results
count_entered p ((dequeues, now) ∷ ops) (r ∷ results) = count_entered p ops results

-- How many jobs that pass a test were taken.
abbrev pub count_taken : {P : Type 0} → (PrioritizedJob P → Bool) → List (Result P) → ℕ
count_taken p [] = 0
count_taken p (taken t j ∷ results) = (if p j then 1 else 0) + count_taken p results
count_taken p (entered ∷ results) = count_taken p results
count_taken p (refused ∷ results) = count_taken p results
count_taken p (waits ∷ results) = count_taken p results

module _ {P Q : Type 0} (queue : PriorityQueue P Q) where
  -- A call, and what its caller sees; one that is refused or has to wait leaves the queue as it is.
  unfoldable pub apply : Op P → ℕ → Queue Q → Queue Q × Result P
  unfolding enqueue dequeue
  apply (enqueues priority payload) now q = elim (enqueue queue now priority payload q) [
    | none ↦ (q, refused)
    | some q' ↦ (q', entered)
  ]
  apply dequeues now q = elim (dequeue queue now q) [
    | none ↦ (q, waits)
    | some (q', t, j) ↦ (q', taken t j)
  ]

  unfoldable pub run : List (Op P × ℕ) → Queue Q → Queue Q × List (Result P)
  unfolding apply
  run [] q = (q, [])
  run ((op, now) ∷ ops) q =
      ((run ops (apply op now q).0).0, (apply op now q).1 ∷ (run ops (apply op now q).0).1)

  -- What a result says of the queue before the call: a job is refused by a full queue, the job that is
  -- taken has none in front of it by priority and then by time, and is not taken before it is asked
  -- for, and a caller waits where there is no job.
  abbrev pub IsServed : ℕ → Queue Q → Result P → Type 0
  IsServed now q entered = Unit
  IsServed now q refused = (0 < q.max_size) × (q.max_size ≤ queue.qsize q.items)
  IsServed now q (taken t j) =
      (now ≤ t)
      × (queue.count
            (λ k.
              ltb k.priority j.priority
              || k.priority == j.priority && ltb k.created_at j.created_at)
            q.items
          ≡ 0)
  IsServed now q waits = queue.qsize q.items ≡ 0

  abbrev pub AreServed : List (Op P × ℕ) → Queue Q → Type 0
  AreServed [] q = Unit
  AreServed ((op, now) ∷ ops) q =
      IsServed now q (apply op now q).1 × AreServed ops (apply op now q).0

  -- A queue with a size holds no more jobs than that.
  abbrev pub IsWithin : Queue Q → Type 0
  IsWithin q = (0 < q.max_size) → queue.qsize q.items ≤ q.max_size

  -- What a call does: the jobs are kept, the result is true, and the size is kept.
  abbrev Does : (PrioritizedJob P → Bool) → Op P → ℕ → Queue Q → Queue Q × Result P → Type 0
  Does p op now q r =
      (queue.count p q.items + count_entered p ((op, now) ∷ []) (r.1 ∷ [])
        ≡ queue.count p r.0.items + count_taken p (r.1 ∷ []))
      × IsServed now q r.1
      × IsWithin r.0
