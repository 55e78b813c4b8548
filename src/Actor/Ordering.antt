-- ===== src/Actor/Ordering.antt =====
-- The order in which messages are taken from a mailbox.
use comfyui_engine.Prelude.{
  ℕ, zero, suc, ◌≡◌, refl, inl, inr, arith, Bool, true, false, Option, none, some, List, [], ◌∷◌,
  length, keep, count_if, all, All, Bool-cases, leb, ◌∙◌,
}
use comfyui_engine.Actor.{
  Message, Actor, HeapQueue, is_expired, is_live, is_before, enqueue, skip_expired, pop_message,
  next_message,
}

module _ {A : Type 0} where
  count_if-none : (p : A → Bool) (xs : List A) → All (λ x. p x ≡ false) xs → count_if p xs ≡ 0
  count_if-none p [] h = refl
  count_if-none p (x ∷ xs) h = ground (arith, h.0, count_if-none p xs h.1)

  keep-all : (p : A → Bool) (xs : List A) → all p xs ≡ true → keep p xs ≡ xs
  keep-all p [] h = refl
  keep-all p (x ∷ xs) h = ground (arith, h, keep-all p xs)

module _ {P : Type 0} (heap : HeapQueue (Message P) is_before) where
  skip_expired-IsHeap :
      (now n : ℕ) (box : List (Message P))
      → heap.IsHeap box
      → heap.IsHeap (skip_expired heap now n box)
  unfolding skip_expired
  skip_expired-IsHeap now zero box h = h
  skip_expired-IsHeap now (suc n) [] h = h
  skip_expired-IsHeap now (suc n) (m ∷ box) h = elim (Bool-cases (is_expired now m)) [
    | inl e ↦ rw e (skip_expired-IsHeap now n (heap.pop_rest m box) (heap.pop_rest-IsHeap m box h))
    | inr e ↦ rw e h
  ]

  -- The mailbox stays a heap, and no message in it is before the one that is taken.
  abbrev pub TakesLeast : Actor P × Option (Message P) → Type 0
  TakesLeast r =
      heap.IsHeap r.0.mailbox
      × elim r.1 [ none ↦ Unit | some m ↦ count_if (λ y. is_before y m) r.0.mailbox ≡ 0 ]

  pop_message-TakesLeast :
      (box : List (Message P)) (a : Actor P) → heap.IsHeap box → TakesLeast (pop_message heap box a)
  unfolding pop_message
  pop_message-TakesLeast [] a h = (h, tt)
  pop_message-TakesLeast (m ∷ box) a h = (
    heap.pop_rest-IsHeap m box h,
    heap.pop_rest-count (λ y. is_before y m) m box
        ∙ count_if-none (λ y. is_before y m) box (heap.first_least m box h),
  )

  -- From a mailbox that is a heap, the message taken is one that no remaining message is before, by
  -- its priority and then its time, and the mailbox stays a heap.
  next_message-TakesLeast :
      (now : ℕ) (a : Actor P) → heap.IsHeap a.mailbox → TakesLeast (next_message heap now a)
  unfolding next_message
  next_message-TakesLeast now a h =
      pop_message-TakesLeast (skip_expired heap now (length a.mailbox) a.mailbox) a
        (skip_expired-IsHeap now (length a.mailbox) a.mailbox h)

  -- Enqueueing keeps the mailbox a heap as long as no message in it has expired.
  pub enqueue-IsHeap :
      (now : ℕ) (m : Message P) (a : Actor P)
      → all (is_live now) a.mailbox ≡ true
      → heap.IsHeap a.mailbox
      → heap.IsHeap (enqueue heap now m a).0.mailbox
  unfolding enqueue
  enqueue-IsHeap now m a live h = elim (Bool-cases (leb a.mailbox_size (length a.mailbox))) [
    | inl e ↦ rw e h
    | inr e ↦ rw (e, keep-all (is_live now) a.mailbox live) (heap.push-IsHeap m a.mailbox h)
  ]
