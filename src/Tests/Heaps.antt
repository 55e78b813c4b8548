-- ===== src/Tests/Heaps.antt =====
-- An instance of the interface for asyncio.PriorityQueue: a list of items, from which `get` takes a
-- lowest one.
use comfyui_engine.Prelude.{
  ◌+◌, ◌≡◌, refl, sym, ap, ◌∙◌, inl, inr, arith, Bool, true, false, Option, none, some, List, [],
  ◌∷◌, length, count_if, if◌then◌else◌, Bool-cases,
}
use comfyui_engine.JobQueue.{PrioritizedJob, PriorityQueue, is_before}

module _ {P : Type 0} where
  -- A lowest one of a first item and the others, and what is left.
  unfoldable pub extract :
      PrioritizedJob P → List (PrioritizedJob P) → PrioritizedJob P × List (PrioritizedJob P)
  unfolding is_before
  extract j [] = (j, [])
  extract j (k ∷ ks) =
      let low = extract k ks in
      let same = extract j ks in if is_before k j then (low.0, j ∷ low.1) else (same.0, k ∷ same.1)

  unfoldable pub get_lowest :
      List (PrioritizedJob P) → Option (PrioritizedJob P × List (PrioritizedJob P))
  unfolding extract
  get_lowest [] = none
  get_lowest (j ∷ js) = some (extract j js)

  count-extract :
      (p : PrioritizedJob P → Bool) (j : PrioritizedJob P) (js : List (PrioritizedJob P))
      → count_if p (j ∷ js) ≡ (if p (extract j js).0 then 1 else 0) + count_if p (extract j js).1
  unfolding extract
  count-extract p j [] = ground arith
  count-extract p j (k ∷ ks) = elim (Bool-cases (is_before k j)) [
    | inl e ↦ rw (extract, e) (ground (arith, count-extract p k ks))
    | inr e ↦ rw (extract, e) (ground (arith, count-extract p j ks))
  ]

  least_of_low :
      (j k l : PrioritizedJob P)
      → is_before k j ≡ true
      → is_before k l ≡ false
      → is_before j l ≡ false
  unfolding is_before
  least_of_low j k l h e = ground (arith, h, e)

  least_of_same :
      (j k l : PrioritizedJob P)
      → is_before k j ≡ false
      → is_before j l ≡ false
      → is_before k l ≡ false
  unfolding is_before
  least_of_same j k l h e = ground (arith, h, e)

  -- The first of a list with no item that passes does not pass, nor does any other.
  none_pass :
      (p : PrioritizedJob P → Bool) (j : PrioritizedJob P) (js : List (PrioritizedJob P))
      → count_if p (j ∷ js) ≡ 0
      → (p j ≡ false) × (count_if p js ≡ 0)
  none_pass p j js h = elim (Bool-cases (p j)) [
    | inl e ↦ absurd (ground (arith, e, h))
    | inr e ↦ (e, ground (arith, e, h))
  ]

  none_of :
      (p : PrioritizedJob P → Bool) (j k : PrioritizedJob P) (js : List (PrioritizedJob P))
      → p j ≡ false
      → p k ≡ false
      → count_if p js ≡ 0
      → count_if p (j ∷ k ∷ js) ≡ 0
  none_of p j k js h e r = rw (h, e, r) refl

  irreflexive : (j : PrioritizedJob P) → count_if (λ k. is_before k j) (j ∷ []) ≡ 0
  unfolding is_before
  irreflexive j = ground arith

  extract-least :
      (j : PrioritizedJob P) (js : List (PrioritizedJob P))
      → count_if (λ k. is_before k (extract j js).0) (j ∷ js) ≡ 0
  unfolding extract
  extract-least j [] = irreflexive j
  extract-least j (k ∷ ks) = elim (Bool-cases (is_before k j)) [
    | inl e ↦
        (let low = none_pass (λ i. is_before i (extract k ks).0) k ks (extract-least k ks) in
          let first : (extract j (k ∷ ks)).0 ≡ (extract k ks).0 = rw (extract, e) refl in
          ap (λ l. count_if (λ i. is_before i l) (j ∷ k ∷ ks)) first
          ∙ none_of (λ i. is_before i (extract k ks).0) j k ks
              (least_of_low j k (extract k ks).0 e low.0) low.0 low.1)
    | inr e ↦
        (let same = none_pass (λ i. is_before i (extract j ks).0) j ks (extract-least j ks) in
          let first : (extract j (k ∷ ks)).0 ≡ (extract j ks).0 = rw (extract, e) refl in
          ap (λ l. count_if (λ i. is_before i l) (j ∷ k ∷ ks)) first
          ∙ none_of (λ i. is_before i (extract j ks).0) j k ks same.0
              (least_of_same j k (extract j ks).0 e same.0) same.1)
  ]

  pub get_lowest-none :
      (p : PrioritizedJob P → Bool) (js : List (PrioritizedJob P))
      → get_lowest js ≡ none
      → count_if p js ≡ 0
  unfolding get_lowest
  get_lowest-none p [] h = refl
  get_lowest-none p (j ∷ js) h = absurd (cc h)

  pub get_lowest-some :
      (p : PrioritizedJob P → Bool) (js : List (PrioritizedJob P)) (j : PrioritizedJob P)
      (rest : List (PrioritizedJob P))
      → get_lowest js ≡ some (j, rest)
      → (count_if p js ≡ (if p j then 1 else 0) + count_if p rest)
        × (count_if (λ k. is_before k j) js ≡ 0)
  unfolding get_lowest
  get_lowest-some p [] j rest h = absurd (cc h)
  get_lowest-some p (i ∷ js) j rest h =
      let same : extract i js ≡ (j, rest) = cc h in
      (
        count-extract p i js ∙ ap (λ r. (if p r.0 then 1 else 0) + count_if p r.1) same,
        ap (λ r. count_if (λ k. is_before k r.0) (i ∷ js)) (sym same) ∙ extract-least i js,
      )

  pub length-count_if : (js : List (PrioritizedJob P)) → length js ≡ count_if (λ k. true) js
  length-count_if [] = refl
  length-count_if (j ∷ js) = omega (arith, length-count_if js)

unfoldable pub list_queue : {P : Type 0} → PriorityQueue P (List (PrioritizedJob P))
unfolding get_lowest
list_queue = record {
  put = λ j js. j ∷ js;
  get = get_lowest;
  qsize = length;
  count = count_if;
  qsize_lem = length-count_if;
  count-put = λ p j js. refl;
  get_none = get_lowest-none;
  get_some = get_lowest-some;
}
