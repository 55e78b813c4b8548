-- ===== src/Actor/Mailbox.antt =====
-- What a mailbox keeps, and which message is taken from it.
use comfyui_engine.Prelude.{
  ℕ, zero, suc, ◌+◌, ◌≡◌, ◌≤◌, refl, sym, ◌∙◌, inl, inr, arith, Bool, true, false, ◌&&◌, Option,
  none, some, List, [], ◌∷◌, length, keep, count_if, ltb, if◌then◌else◌, Bool-cases, length-keep,
}
use comfyui_engine.Actor.{
  Message, Actor, HeapQueue, is_expired, is_live, is_before, enqueue, skip_expired, pop_message,
  next_message,
}

module _ {A : Type 0} where
  count_all : (xs : List A) → count_if (λ x. true) xs ≡ length xs
  count_all [] = refl
  count_all (x ∷ xs) = ground (arith, count_all xs)

  count_if-keep :
      (p q : A → Bool) (xs : List A) → count_if p (keep q xs) ≡ count_if (λ x. q x && p x) xs
  count_if-keep p q [] = refl
  count_if-keep p q (x ∷ xs) = ground (arith, count_if-keep p q xs)

module _ {P : Type 0} (heap : HeapQueue (Message P) is_before) where
  length-pop_rest :
      (m : Message P) (box : List (Message P)) → length (heap.pop_rest m box) ≡ length box
  length-pop_rest m box =
      sym (count_all (heap.pop_rest m box)) ∙ heap.pop_rest-count (λ x. true) m box ∙ count_all box

  length-push :
      (m : Message P) (box : List (Message P)) → length (heap.push m box) ≡ suc (length box)
  length-push m box =
      sym (count_all (heap.push m box)) ∙ heap.push-count (λ x. true) m box ∙ count_all (m ∷ box)

  -- Enqueueing keeps the mailbox within its size; it refuses exactly where the mailbox is full,
  -- and then changes nothing; else the mailbox has the message and, of those before, the ones that
  -- have not expired, each as often.
  enqueue_lem :
      (now : ℕ) (m : Message P) (a : Actor P) (p : Message P → Bool)
      → length a.mailbox ≤ a.mailbox_size
      → (length (enqueue heap now m a).0.mailbox ≤ a.mailbox_size)
        × ((enqueue heap now m a).1 ≡ ltb (length a.mailbox) a.mailbox_size)
        × (count_if p (enqueue heap now m a).0.mailbox ≡ (
            if (enqueue heap now m a).1
            then count_if p (m ∷ []) + count_if (λ x. is_live now x && p x) a.mailbox
            else count_if p a.mailbox))
  unfolding enqueue
  enqueue_lem now m a p h = ground (
    arith,
    h,
    length-push m (keep (is_live now) a.mailbox),
    length-keep (is_live now) a.mailbox,
    heap.push-count p m (keep (is_live now) a.mailbox),
    count_if-keep p (is_live now) a.mailbox,
  )

  -- What is left after the skipping: it starts with a message that has not expired, if any, and
  -- has all messages that have not expired.
  skip_expired-count :
      (p : Message P → Bool) (now n : ℕ) (box : List (Message P))
      → count_if (λ x. is_live now x && p x) (skip_expired heap now n box)
        ≡ count_if (λ x. is_live now x && p x) box
  unfolding skip_expired is_live
  skip_expired-count p now zero box = refl
  skip_expired-count p now (suc n) [] = refl
  skip_expired-count p now (suc n) (m ∷ box) = ground (
    arith,
    skip_expired-count p now n (heap.pop_rest m box),
    heap.pop_rest-count (λ x. is_live now x && p x) m box,
  )

  abbrev StartsLive : ℕ → List (Message P) → Type 0
  StartsLive now [] = Unit
  StartsLive now (m ∷ box) = is_expired now m ≡ false

  skip_expired-StartsLive :
      (now n : ℕ) (box : List (Message P))
      → length box ≤ n
      → StartsLive now (skip_expired heap now n box)
  unfolding skip_expired
  skip_expired-StartsLive now zero [] h = tt
  skip_expired-StartsLive now zero (m ∷ box) h = ground (arith, h)
  skip_expired-StartsLive now (suc n) [] h = tt
  skip_expired-StartsLive now (suc n) (m ∷ box) h = elim (Bool-cases (is_expired now m)) [
    | inl e ↦ rw e (
        skip_expired-StartsLive now n (heap.pop_rest m box)
          (ground (arith, h, length-pop_rest m box)))
    | inr e ↦ rw e e
  ]

  -- What the taking of a message makes of a mailbox.
  abbrev pub Takes : ℕ → (Message P → Bool) → Actor P → Actor P × Option (Message P) → Type 0
  Takes now p a r = elim r.1 [
    | none ↦ count_if (λ x. is_live now x && p x) a.mailbox ≡ 0
    | some m ↦
        (is_expired now m ≡ false)
        × (count_if (λ x. is_live now x && p x) a.mailbox
            ≡ count_if p (m ∷ []) + count_if (λ x. is_live now x && p x) r.0.mailbox)
  ]

  pop_message-Takes :
      (now : ℕ) (p : Message P → Bool) (box : List (Message P)) (a : Actor P)
      → StartsLive now box
      → count_if (λ x. is_live now x && p x) box ≡ count_if (λ x. is_live now x && p x) a.mailbox
      → Takes now p a (pop_message heap box a)
  unfolding pop_message is_live
  pop_message-Takes now p [] a s e = sym e
  pop_message-Takes now p (m ∷ box) a s e =
      (s, ground (arith, s, e, heap.pop_rest-count (λ x. is_live now x && p x) m box))

  -- The message that is taken from a mailbox, be it a heap or not, has not expired, and every other message that has not
  -- expired stays, as often as before; none is taken only where all messages have expired.
  pub next_message-Takes :
      (now : ℕ) (p : Message P → Bool) (a : Actor P) → Takes now p a (next_message heap now a)
  unfolding next_message
  next_message-Takes now p a =
      pop_message-Takes now p (skip_expired heap now (length a.mailbox) a.mailbox) a
        (skip_expired-StartsLive now (length a.mailbox) a.mailbox (omega arith))
        (skip_expired-count p now (length a.mailbox) a.mailbox)
