-- ===== src/Pool/Load.antt =====
-- The choice of a slot, and the loads and restarts of the slots along any interleaving.
use comfyui_engine.Prelude.{
  ℕ, zero, suc, ◌+◌, ◌-◌, ◌≡◌, ◌≤◌, refl, inl, inr, arith, Bool, true, false, ◌&&◌, Option, none,
  some, List, [], ◌∷◌, All, any, count_if, ltb, ◌==◌, if◌then◌else◌, Option-cases, Bool-cases,
}
use comfyui_engine.Pool.{
  Slot, Pool, is_alive, least_loaded, pick_slot, update_slot, begin_call, end_call, check_slot,
  visit, die, alive_count,
}

unfoldable pub slot_at : ℕ → List Slot → Option Slot
slot_at i [] = none
slot_at zero (s ∷ ss) = some s
slot_at (suc i) (s ∷ ss) = slot_at i ss

slot_at-update_slot :
    (i j : ℕ) (f : Slot → Slot) (ss : List Slot)
    → slot_at j (update_slot i f ss)
      ≡ (if i == j then elim (slot_at j ss) [ none ↦ none | some s ↦ some (f s) ] else slot_at j ss)
unfolding slot_at update_slot
slot_at-update_slot i j f [] = ground arith
slot_at-update_slot zero zero f (s ∷ ss) = refl
slot_at-update_slot zero (suc j) f (s ∷ ss) = ground arith
slot_at-update_slot (suc i) zero f (s ∷ ss) = ground arith
slot_at-update_slot (suc i) (suc j) f (s ∷ ss) = ground (arith, slot_at-update_slot i j f ss)

-- What happens to a pool, with the number of calls that await each slot: a call begins on the slot
-- that is picked, if any; one of the calls on a slot ends, however it ends; a process dies; the
-- monitor visits a slot.
pub data Event : Type 0 where
  begins : Event
  ends dies : ℕ → Event
  visits : ℕ → Bool → Event

-- The calls in flight after one more on a slot, and after one less.
unfoldable pub one_more : ℕ → (ℕ → ℕ) → ℕ → ℕ
one_more i calls j = if i == j then calls j + 1 else calls j

unfoldable pub one_less : ℕ → (ℕ → ℕ) → ℕ → ℕ
one_less i calls j = if i == j then calls j - 1 else calls j

unfoldable pub apply : Event → Pool × (ℕ → ℕ) → Pool × (ℕ → ℕ)
unfolding begin_call end_call visit die one_more one_less pick_slot
apply begins (p, calls) = elim (pick_slot p) [
  | none ↦ (p, calls)
  | some i ↦ (begin_call i p, one_more i calls)
]
apply (ends i) (p, calls) = if calls i == 0 then (p, calls) else (end_call i p, one_less i calls)
apply (dies i) (p, calls) = (die i p, calls)
apply (visits i ok) (p, calls) = (visit i ok p, calls)

unfoldable pub run : List Event → Pool × (ℕ → ℕ) → Pool × (ℕ → ℕ)
unfolding apply
run [] w = w
run (e ∷ es) w = run es (apply e w)

-- A slot has as many pending as calls await it, and no more restarts than allowed.
abbrev pub IsSound : ℕ → ℕ → Option Slot → Type 0
IsSound max calls none = Unit
IsSound max calls (some s) = (s.pending ≡ calls) × (s.restarts ≤ max)

abbrev pub IsValid : Pool × (ℕ → ℕ) → Type 0
IsValid w = (i : ℕ) → IsSound w.0.max_restarts (w.1 i) (slot_at i w.0.slots)

-- An update that takes a sound slot to a sound one, for the number of calls after it.
IsSound-update_slot :
    (max i j : ℕ) (f : Slot → Slot) (ss : List Slot) (before after : ℕ)
    → ((s : Slot)
        → (s.pending ≡ before) × (s.restarts ≤ max)
        → ((f s).pending ≡ after) × ((f s).restarts ≤ max))
    → IsSound max before (slot_at j ss)
    → IsSound max (if i == j then after else before) (slot_at j (update_slot i f ss))
IsSound-update_slot max i j f ss before after step h = elim (Bool-cases (i == j)) [
  | inr e ↦ rw (slot_at-update_slot i j f ss, e) h
  | inl e ↦
      rw (slot_at-update_slot i j f ss, e)
        (elim (Option-cases (slot_at j ss)) [
          | inl n ↦ rw n tt
          | inr (s, so) ↦ rw so (step s (rw so at h))
        ])
]

if_same : (b : Bool) (n : ℕ) → (if b then n else n) ≡ n
if_same true n = refl
if_same false n = refl

-- An update that changes neither the pending calls of a sound slot nor lets its restarts exceed.
IsSound-update_kept :
    (max i j : ℕ) (f : Slot → Slot) (ss : List Slot) (calls : ℕ)
    → ((s : Slot)
        → (s.pending ≡ calls) × (s.restarts ≤ max)
        → ((f s).pending ≡ calls) × ((f s).restarts ≤ max))
    → IsSound max calls (slot_at j ss)
    → IsSound max calls (slot_at j (update_slot i f ss))
IsSound-update_kept max i j f ss calls step h =
    rw (if_same (i == j) calls) at (IsSound-update_slot max i j f ss calls calls step h)

check_slot-IsSound :
    (max calls : ℕ) (ok : Bool) (s : Slot)
    → (s.pending ≡ calls) × (s.restarts ≤ max)
    → ((check_slot max ok s).pending ≡ calls) × ((check_slot max ok s).restarts ≤ max)
unfolding check_slot
check_slot-IsSound max calls ok s h = ground (arith, h.0, h.1)

apply-IsValid : (e : Event) (w : Pool × (ℕ → ℕ)) → IsValid w → IsValid (apply e w)
unfolding apply begin_call end_call visit die one_more one_less check_slot
apply-IsValid begins w h j = elim (Option-cases (pick_slot w.0)) [
  | inl n ↦ rw (apply, n) (h j)
  | inr (i, e) ↦
      rw (apply, e)
        (IsSound-update_slot w.0.max_restarts i j (λ s. record s { pending = s.pending + 1 })
          w.0.slots (w.1 j) (w.1 j + 1) (λ s k. (ground (arith, k.0), k.1)) (h j))
]
apply-IsValid (ends i) w h j = elim (Bool-cases (w.1 i == 0)) [
  | inl z ↦ rw (apply, z) (h j)
  | inr e ↦
      rw (apply, e)
        (IsSound-update_slot w.0.max_restarts i j (λ s. record s { pending = s.pending - 1 })
          w.0.slots (w.1 j) (w.1 j - 1) (λ s k. (ground (arith, k.0), k.1)) (h j))
]
apply-IsValid (dies i) w h j =
    IsSound-update_kept w.0.max_restarts i j (λ s. record s { is_running = false }) w.0.slots
      (w.1 j) (λ s k. k) (h j)
apply-IsValid (visits i ok) w h j =
    IsSound-update_kept w.0.max_restarts i j (check_slot w.0.max_restarts ok) w.0.slots (w.1 j)
      (check_slot-IsSound w.0.max_restarts (w.1 j) ok) (h j)

-- Along any interleaving of calls, deaths of processes and visits of the monitor, every slot has as
-- many pending as calls await it, and no more restarts than allowed, if this held at the start.
pub run-IsValid : (es : List Event) (w : Pool × (ℕ → ℕ)) → IsValid w → IsValid (run es w)
unfolding run
run-IsValid [] w h = h
run-IsValid (e ∷ es) w h = run-IsValid es (apply e w) (apply-IsValid e w h)

-- The slot under the index is alive, has the load, and no slot that is alive has less.
abbrev pub IsLeast : List Slot → Option (ℕ × ℕ) → Type 0
IsLeast ss none = any is_alive ss ≡ false
IsLeast ss (some r) =
    (elim (slot_at r.0 ss) [ none ↦ false | some s ↦ is_alive s && (s.pending == r.1) ] ≡ true)
    × All (λ t. is_alive t ≡ true → r.1 ≤ t.pending) ss

below_weaken :
    (m n : ℕ) (ss : List Slot)
    → n ≤ m
    → All (λ t. is_alive t ≡ true → m ≤ t.pending) ss
    → All (λ t. is_alive t ≡ true → n ≤ t.pending) ss
below_weaken m n [] h k = tt
below_weaken m n (s ∷ ss) h k = ((λ e. omega (arith, h, k.0 e)), below_weaken m n ss h k.1)

below_vacuous :
    (n : ℕ) (ss : List Slot)
    → any is_alive ss ≡ false
    → All (λ t. is_alive t ≡ true → n ≤ t.pending) ss
below_vacuous n [] h = tt
below_vacuous n (s ∷ ss) h = ((λ e. ground (arith, h, e)), below_vacuous n ss (ground (arith, h)))

least_loaded-IsLeast : (ss : List Slot) → IsLeast ss (least_loaded ss)
unfolding least_loaded slot_at
least_loaded-IsLeast [] = refl
least_loaded-IsLeast (s ∷ ss) = elim (Bool-cases (is_alive s)) [
  | inl a ↦ elim (Option-cases (least_loaded ss)) [
    | inl e ↦
        rw (least_loaded, e, a)
          (
            ground (arith, a),
            ((λ _. omega arith), below_vacuous s.pending ss (rw e at (least_loaded-IsLeast ss))),
          )
    | inr (r, e) ↦ elim (Bool-cases (ltb r.1 s.pending)) [
      | inl l ↦
          rw (least_loaded, e, a, l)
            (
              (rw e at (least_loaded-IsLeast ss)).0,
              ((λ _. ground (arith, l)), (rw e at (least_loaded-IsLeast ss)).1),
            )
      | inr l ↦
          rw (least_loaded, e, a, l)
            (
              ground (arith, a),
              (
                (λ _. omega arith),
                below_weaken r.1 s.pending ss (ground (arith, l))
                    (rw e at (least_loaded-IsLeast ss)).1,
              ),
            )
    ]
  ]
  | inr a ↦ elim (Option-cases (least_loaded ss)) [
    | inl e ↦ rw (least_loaded, e, a) (ground (arith, a, (rw e at (least_loaded-IsLeast ss))))
    | inr (r, e) ↦
        rw (least_loaded, e, a)
          (
            (rw e at (least_loaded-IsLeast ss)).0,
            ((λ x. ground (arith, a, x)), (rw e at (least_loaded-IsLeast ss)).1),
          )
  ]
]

-- What `_pick_slot` may answer for a pool.
abbrev pub IsPicked : Pool → Option ℕ → Type 0
IsPicked p none = alive_count p ≡ 0
IsPicked p (some i) = (load : ℕ) × IsLeast p.slots (some (i, load))

count_if-none : (ss : List Slot) → any is_alive ss ≡ false → count_if is_alive ss ≡ 0
count_if-none [] h = refl
count_if-none (s ∷ ss) h = ground (arith, h, count_if-none ss)

-- `_pick_slot` picks a slot that is alive and whose load no alive slot is below; it raises only
-- where no slot is alive.
pick_slot-IsPicked : (p : Pool) → IsPicked p (pick_slot p)
unfolding pick_slot alive_count
pick_slot-IsPicked p = elim (Option-cases (least_loaded p.slots)) [
  | inl e ↦ rw (pick_slot, e) (count_if-none p.slots (rw e at (least_loaded-IsLeast p.slots)))
  | inr (r, e) ↦ rw (pick_slot, e) (r.1, rw e at (least_loaded-IsLeast p.slots))
]
