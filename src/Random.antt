-- ===== src/Random.antt =====
-- The standard library's `random.uniform`, as an interface: the n-th draw of a run, between two
-- ends. The law is the documented one: the result lies between the ends, in either order.
use comfyui_engine.Prelude.{ℕ, ◌≤◌, min, max, arith}

pub record Random : Type 0 where
  pub uniform : ℕ → ℕ → ℕ → ℕ
  pub uniform-ge : (n lo hi : ℕ) → min lo hi ≤ uniform n lo hi
  pub uniform-le : (n lo hi : ℕ) → uniform n lo hi ≤ max lo hi

pub min-le-max : (lo hi : ℕ) → min lo hi ≤ max lo hi
min-le-max lo hi = omega arith

pub max-le_self : (lo hi : ℕ) → max lo hi ≤ max lo hi
max-le_self lo hi = omega arith

-- The generator that always draws the larger end.
abbrev pub draws_high : Random
draws_high = record {
  uniform = λ n lo hi. max lo hi;
  uniform-ge = λ n lo hi. min-le-max lo hi;
  uniform-le = λ n lo hi. max-le_self lo hi;
}
