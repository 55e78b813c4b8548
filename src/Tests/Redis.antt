-- ===== src/Tests/Redis.antt =====
-- An instance of the interface for Redis: a hash is a dictionary, and a sorted set a dictionary of
-- scores.
use comfyui_engine.Prelude.{
  ◌≡◌, refl, sym, ◌∙◌, inl, inr, arith, Bool, true, false, ◌&&◌, Option, none, some, List, [], ◌∷◌,
  String, ℤ, leb_ℤ, length, str_eq, eq_iff, any, keep, if◌then◌else◌, Dict, lookup, insert, erase,
  lookup-insert, lookup-erase, Bool-cases, Option-cases,
}
use text.Mathlib.TextPositions.{eq_refl}
use comfyui_engine.Distributed.Redis.{Redis, IsLeast, in_range}

unfoldable pub better : String → ℤ → Option (String × ℤ) → Option (String × ℤ)
better k s none = some (k, s)
better k s (some (j, t)) = if leb_ℤ s t then some (k, s) else some (j, t)

-- The least score of the keys, and its key.
unfoldable pub least_of : Dict ℤ → List String → Option (String × ℤ)
unfolding better
least_of z [] = none
least_of z (k ∷ ks) =
    let rest = least_of z ks in elim (lookup k z) [ none ↦ rest | some s ↦ better k s rest ]

unfoldable pub keys : Dict ℤ → List String
keys [] = []
keys ((k, s) ∷ z) = k ∷ keys z

unfoldable pub pop : Dict ℤ → Option (String × Dict ℤ)
unfolding least_of keys
pop z = elim (least_of z (keys z)) [ none ↦ none | some (k, s) ↦ some (k, erase k z) ]

unfoldable pub keys_in : ℤ → ℤ → Dict ℤ → List String
unfolding keys
keys_in lo hi z = keep (λ k. in_range lo hi (lookup k z)) (keys z)

unfoldable pub erase_each : List String → Dict ℤ → Dict ℤ
erase_each [] z = z
erase_each (k ∷ ks) z = erase_each ks (erase k z)

pub lookup-erase_each :
    (j : String) (ks : List String) (z : Dict ℤ)
    → lookup j (erase_each ks z) ≡ (if any (λ k. str_eq k j) ks then none else lookup j z)
unfolding erase_each
lookup-erase_each j [] z = refl
lookup-erase_each j (k ∷ ks) z =
    lookup-erase_each j ks (erase k z) ∙ ground (arith, lookup-erase k j z)

any-keys : (j : String) (z : Dict ℤ) → any (λ k. str_eq k j) (keys z) ≡ false → lookup j z ≡ none
unfolding keys lookup
any-keys j [] h = refl
any-keys j ((k, s) ∷ z) h = ground (arith, h, any-keys j z)

any-keep :
    (p : Option ℤ → Bool) (j : String) (z : Dict ℤ) (ks : List String)
    → any (λ k. str_eq k j) (keep (λ k. p (lookup k z)) ks)
      ≡ (any (λ k. str_eq k j) ks && p (lookup j z))
any-keep p j z [] = refl
any-keep p j z (k ∷ ks) = elim (Bool-cases (str_eq k j)) [
  | inl same ↦
      rw ((eq_iff k j).0 same, eq_refl j)
        (elim (Bool-cases (p (lookup j z))) [
          | inl e ↦ rw (e, eq_refl j) refl
          | inr e ↦ rw e (any-keep p j z ks ∙ ground (arith, e))
        ])
  | inr other ↦ rw other (elim (Bool-cases (p (lookup k z))) [
    | inl e ↦ rw (e, other) (any-keep p j z ks)
    | inr e ↦ rw e (any-keep p j z ks)
  ])
]

pub any-keys_in :
    (lo hi : ℤ) (z : Dict ℤ) (j : String)
    → any (λ k. str_eq k j) (keys_in lo hi z) ≡ in_range lo hi (lookup j z)
unfolding keys_in
any-keys_in lo hi z j =
    any-keep (in_range lo hi) j z (keys z) ∙ elim (Bool-cases (any (λ k. str_eq k j) (keys z))) [
      | inl e ↦ rw e refl
      | inr e ↦ rw (e, any-keys j z e) refl
    ]

leb_ℤ-total : (s t : ℤ) → leb_ℤ s t ≡ false → leb_ℤ t s ≡ true
leb_ℤ-total s t h = ground (arith, h)

leb_ℤ-trans : (s t u : ℤ) → leb_ℤ s t ≡ true → leb_ℤ t u ≡ true → leb_ℤ s u ≡ true
leb_ℤ-trans s t u h k = ground (arith, h, k)

leb_ℤ-eq : (s t : ℤ) → s ≡ t → leb_ℤ s t ≡ true
leb_ℤ-eq s t e = rw e (ground arith)

score_same :
    (z : Dict ℤ) (k j : String) (o : Option ℤ) → lookup k z ≡ o → str_eq k j ≡ true → lookup j z ≡ o
score_same z k j o e same = rw (sym ((eq_iff k j).0 same)) e

-- The result is the least of the scores of the keys.
abbrev IsMin : Dict ℤ → List String → Option (String × ℤ) → Type 0
IsMin z ks none = (j : String) → any (λ k. str_eq k j) ks ≡ true → lookup j z ≡ none
IsMin z ks (some (k, s)) =
    (lookup k z ≡ some s)
    × ((j : String) (t : ℤ)
        → any (λ i. str_eq i j) ks ≡ true
        → lookup j z ≡ some t
        → leb_ℤ s t ≡ true)

better-IsMin :
    (z : Dict ℤ) (k : String) (s : ℤ) (ks : List String) (r : Option (String × ℤ))
    → lookup k z ≡ some s
    → IsMin z ks r
    → IsMin z (k ∷ ks) (better k s r)
unfolding better
better-IsMin z k s ks none e h = (
  e,
  λ j t found at_j. elim (Bool-cases (str_eq k j)) [
    | inl same ↦ leb_ℤ-eq s t (cc (score_same z k j (some s) e same, at_j))
    | inr other ↦ absurd (cc (at_j, h j (rw other at found)))
  ],
)
better-IsMin z k s ks (some (i, u)) e h = elim (Bool-cases (leb_ℤ s u)) [
  | inl le ↦ rw le (
    e,
    λ j t found at_j. elim (Bool-cases (str_eq k j)) [
      | inl same ↦ leb_ℤ-eq s t (cc (score_same z k j (some s) e same, at_j))
      | inr other ↦ leb_ℤ-trans s u t le (h.1 j t (rw other at found) at_j)
    ],
  )
  | inr gt ↦ rw gt (
    h.0,
    λ j t found at_j. elim (Bool-cases (str_eq k j)) [
      | inl same ↦
          leb_ℤ-trans u s t (leb_ℤ-total s u gt)
            (leb_ℤ-eq s t (cc (score_same z k j (some s) e same, at_j)))
      | inr other ↦ h.1 j t (rw other at found) at_j
    ],
  )
]

skip-IsMin :
    (z : Dict ℤ) (k : String) (ks : List String) (r : Option (String × ℤ))
    → lookup k z ≡ none
    → IsMin z ks r
    → IsMin z (k ∷ ks) r
skip-IsMin z k ks none e h = λ j found. elim (Bool-cases (str_eq k j)) [
  | inl same ↦ score_same z k j none e same
  | inr other ↦ h j (rw other at found)
]
skip-IsMin z k ks (some (i, u)) e h = (
  h.0,
  λ j t found at_j. elim (Bool-cases (str_eq k j)) [
    | inl same ↦ absurd (cc (score_same z k j none e same, at_j))
    | inr other ↦ h.1 j t (rw other at found) at_j
  ],
)

least_of-IsMin : (z : Dict ℤ) (ks : List String) → IsMin z ks (least_of z ks)
unfolding least_of
least_of-IsMin z [] = λ j found. absurd (ground (arith, found))
least_of-IsMin z (k ∷ ks) = elim (Option-cases (lookup k z)) [
  | inr (s, e) ↦ rw (least_of, e) (better-IsMin z k s ks (least_of z ks) e (least_of-IsMin z ks))
  | inl e ↦ rw (least_of, e) (skip-IsMin z k ks (least_of z ks) e (least_of-IsMin z ks))
]

any-keys-some :
    (j : String) (t : ℤ) (z : Dict ℤ) → lookup j z ≡ some t → any (λ k. str_eq k j) (keys z) ≡ true
any-keys-some j t z e = elim (Bool-cases (any (λ k. str_eq k j) (keys z))) [
  | inl found ↦ found
  | inr missing ↦ absurd (cc (e, any-keys j z missing))
]

pub pop-none : (z : Dict ℤ) → pop z ≡ none → (j : String) → lookup j z ≡ none
unfolding pop
pop-none z e j = elim (Bool-cases (any (λ k. str_eq k j) (keys z))) [
  | inr missing ↦ any-keys j z missing
  | inl found ↦ elim (Option-cases (least_of z (keys z))) [
    | inl f ↦ (rw f at (least_of-IsMin z (keys z))) j found
    | inr ((k, s), f) ↦ absurd (cc (rw (pop, f) at e))
  ]
]

pub pop-some :
    (z : Dict ℤ) (id : String) (z' : Dict ℤ) → pop z ≡ some (id, z') → IsLeast lookup z id z'
unfolding pop
pop-some z id z' e = elim (Option-cases (least_of z (keys z))) [
  | inl f ↦ absurd (cc (rw (pop, f) at e))
  | inr ((k, s), f) ↦
      (let least = rw f at (least_of-IsMin z (keys z)) in
        let same_key : k ≡ id = cc (rw (pop, f) at e) in
        let same_set : erase k z ≡ z' = cc (rw (pop, f) at e) in
        rw (sym same_key, sym same_set)
          (
            s,
            least.0,
            λ j. lookup-erase k j z,
            λ j t at_j. least.1 j t (any-keys-some j t z at_j) at_j,
          ))
]

unfoldable pub dict_redis : {J : Type 0} → Redis (Dict J) (Dict ℤ) J
unfolding erase_each keys_in pop lookup insert erase
dict_redis = record {
  hget = lookup;
  hset = insert;
  zadd = insert;
  zrem = erase;
  zscore = lookup;
  zcard = λ z. length z;
  zpopmin = pop;
  zrangebyscore = keys_in;
  zremrangebyscore = λ lo hi z. (erase_each (keys_in lo hi z) z, length (keys_in lo hi z));
  hget-hset = lookup-insert;
  zscore-zadd = lookup-insert;
  zscore-zrem = lookup-erase;
  zpopmin_none = pop-none;
  zpopmin_some = pop-some;
  any-zrangebyscore = any-keys_in;
  zscore-zremrangebyscore =
      λ lo hi z j. lookup-erase_each j (keys_in lo hi z) z ∙ rw (any-keys_in lo hi z j) refl;
}
