-- ===== src/Distributed/Redis.antt =====
-- The commands of Redis that engine/distributed_queue.py sends, with their documented behaviour. `H`
-- is the type of hashes of `J` and `Z` the type of sorted sets. A key of the queue is one value of
-- these types, and a command is one step.
use comfyui_engine.Prelude.{
  ℕ, ◌≡◌, Bool, true, false, ◌&&◌, Option, none, some, List, String, ℤ, leb_ℤ, str_eq, any,
  if◌then◌else◌,
}

-- A score lies between two bounds.
abbrev pub in_range : ℤ → ℤ → Option ℤ → Bool
in_range lo hi none = false
in_range lo hi (some s) = leb_ℤ lo s && leb_ℤ s hi

-- A member with the least score is taken out.
abbrev pub IsLeast : {Z : Type 0} → (String → Z → Option ℤ) → Z → String → Z → Type 0
IsLeast zscore z id z' =
    (s : ℤ) × (zscore id z ≡ some s)
    × ((j : String) → zscore j z' ≡ (if str_eq id j then none else zscore j z))
    × ((j : String) (t : ℤ) → zscore j z ≡ some t → leb_ℤ s t ≡ true)

pub record Redis (H Z J : Type 0) : Type 0 where
  pub hget : String → H → Option J
  pub hset : String → J → H → H
  pub zadd : String → ℤ → Z → Z
  pub zrem : String → Z → Z
  pub zscore : String → Z → Option ℤ
  pub zcard : Z → ℕ
  pub zpopmin : Z → Option (String × Z)
  pub zrangebyscore : ℤ → ℤ → Z → List String
  pub zremrangebyscore : ℤ → ℤ → Z → Z × ℕ
  pub hget-hset :
      (k j : String) (v : J) (h : H)
      → hget j (hset k v h) ≡ (if str_eq k j then some v else hget j h)
  pub zscore-zadd :
      (k j : String) (s : ℤ) (z : Z)
      → zscore j (zadd k s z) ≡ (if str_eq k j then some s else zscore j z)
  pub zscore-zrem :
      (k j : String) (z : Z) → zscore j (zrem k z) ≡ (if str_eq k j then none else zscore j z)
  pub zpopmin_none : (z : Z) → zpopmin z ≡ none → (j : String) → zscore j z ≡ none
  pub zpopmin_some :
      (z : Z) (id : String) (z' : Z) → zpopmin z ≡ some (id, z') → IsLeast zscore z id z'
  pub any-zrangebyscore :
      (lo hi : ℤ) (z : Z) (j : String)
      → any (λ k. str_eq k j) (zrangebyscore lo hi z) ≡ in_range lo hi (zscore j z)
  pub zscore-zremrangebyscore :
      (lo hi : ℤ) (z : Z) (j : String)
      → zscore j (zremrangebyscore lo hi z).0
        ≡ (if in_range lo hi (zscore j z) then none else zscore j z)
