-- ===== src/Deadline.antt =====
-- engine/deadline.py: a deadline carried by a context variable. A time is a reading of
-- `time.monotonic()` in whole ticks. `Var` is the value of `DEADLINE_VAR` in the running task.
pub mod Nesting
use comfyui_engine.Prelude.{
  ℕ, ◌+◌, min, Bool, true, false, Option, none, some, ℤ, pos, sub_ℕ, ltb_ℤ, leb_ℤ, leb, ◌==◌,
  if◌then◌else◌,
}

abbrev pub Var : Type 0
Var = Option ℕ

-- `token` is the value that `ContextVar.set` remembers, once the context was entered.
pub record Context : Type 0 where
  pub timeout : ℕ
  pub expiry : ℕ
  pub token : Option Var

-- The constructor raises `ValueError` (`none` here) for a timeout that is not positive.
unfoldable pub make : ℕ → Option Context
make timeout =
    if timeout == 0 then none else some (record { timeout = timeout; expiry = 0; token = none })

narrow : ℕ → Var → ℕ
narrow new none = new
narrow new (some existing) = min new existing

-- `__aenter__`
pub enter : ℕ → Context → Var → Context × Var
unfolding narrow
enter now c var =
    let expiry = narrow (now + c.timeout) var in
    (record c { expiry = expiry; token = some var }, some expiry)

-- `__aexit__`
pub exit : Context → Var → Var
exit c var = elim c.token [ none ↦ var | some old ↦ old ]

pub expired : ℕ → Context → Bool
expired now c = leb c.expiry now

pub remaining : ℕ → Context → ℤ
remaining now c = sub_ℕ c.expiry now

pub remaining_positive : ℕ → Context → ℤ
unfolding remaining
remaining_positive now c = let r = remaining now c in if ltb_ℤ (pos 0) r then r else pos 0

unfoldable pub get_deadline : Var → Option ℕ
get_deadline var = var

unfoldable pub remaining_time : ℕ → Var → Option ℤ
remaining_time now none = none
remaining_time now (some dl) = some (sub_ℕ dl now)

-- `check_deadline`: whether it raises `TimeoutError`.
pub check_deadline : ℕ → Var → Bool
unfolding remaining_time
check_deadline now var = elim (remaining_time now var) [
  | none ↦ false
  | some rem ↦ leb_ℤ rem (pos 0)
]
