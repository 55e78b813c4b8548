-- ===== src/Deadline/Nesting.antt =====
-- Nested deadlines: entering narrows, leaving restores, and the checks agree with one another.
use comfyui_engine.Prelude.{
  ℕ, ◌+◌, min, ◌≡◌, refl, none, some, pos, List, [], ◌∷◌, arith, leb_ℤ, if◌then◌else◌,
}
use comfyui_engine.Deadline.{
  Var, Context, enter, exit, expired, remaining, remaining_positive, remaining_time, check_deadline,
}

-- Contexts entered one inside the other, the outermost first, each at a time of its own; the
-- contexts come back with the innermost first, as they will be left.
unfoldable pub enter_all : List (ℕ × Context) → List Context → Var → List Context × Var
unfolding enter
enter_all [] entered var = (entered, var)
enter_all ((now, c) ∷ cs) entered var =
    let (c', var') = enter now c var in enter_all cs (c' ∷ entered) var'

pub exit_all : List Context → Var → Var
unfolding exit
exit_all [] var = var
exit_all (c ∷ cs) var = exit_all cs (exit c var)

-- The least of a deadline and the ends of the given contexts.
abbrev pub tightest : List (ℕ × Context) → Var → Var
tightest [] var = var
tightest ((now, c) ∷ cs) none = tightest cs (some (now + c.timeout))
tightest ((now, c) ∷ cs) (some dl) = tightest cs (some (min (now + c.timeout) dl))

pub exit-enter : (now : ℕ) (c : Context) (var other : Var) → exit (enter now c var).0 other ≡ var
unfolding exit enter
exit-enter now c var other = refl

exit_all-enter_all_from :
    (cs : List (ℕ × Context)) (entered : List Context) (var : Var)
    → exit_all (enter_all cs entered var).0 (enter_all cs entered var).1 ≡ exit_all entered var
unfolding enter_all exit_all
exit_all-enter_all_from [] entered var = refl
exit_all-enter_all_from ((now, c) ∷ cs) entered var =
    exit_all-enter_all_from cs ((enter now c var).0 ∷ entered) (enter now c var).1

enter_all-tightest :
    (cs : List (ℕ × Context)) (entered : List Context) (var : Var)
    → (enter_all cs entered var).1 ≡ tightest cs var
unfolding enter_all
enter_all-tightest [] entered var = refl
enter_all-tightest ((now, c) ∷ cs) entered none =
    enter_all-tightest cs ((enter now c none).0 ∷ entered) (some (now + c.timeout))
enter_all-tightest ((now, c) ∷ cs) entered (some dl) =
    enter_all-tightest cs ((enter now c (some dl)).0 ∷ entered) (some (min (now + c.timeout) dl))

-- Inside any nest of contexts, entered at any times, the deadline in force is the tightest of the
-- one outside and the ends of all of them; leaving them from the inside out brings back the value
-- that the variable had outside.
nesting :
    (cs : List (ℕ × Context)) (var : Var)
    → ((enter_all cs [] var).1 ≡ tightest cs var)
      × (exit_all (enter_all cs [] var).0 (enter_all cs [] var).1 ≡ var)
unfolding exit_all
nesting cs var = (enter_all-tightest cs [] var, exit_all-enter_all_from cs [] var)

-- Inside a context, at any time: the context has expired exactly when `check_deadline` raises,
-- exactly when the remaining time is not positive, and `remaining_positive` is then 0 and otherwise
-- the remaining time.
pub expiry_checks :
    (start now : ℕ) (c : Context) (var : Var)
    → (check_deadline now (enter start c var).1 ≡ expired now (enter start c var).0)
      × (leb_ℤ (remaining now (enter start c var).0) (pos 0) ≡ expired now (enter start c var).0)
      × (remaining_positive now (enter start c var).0 ≡ (
          if expired now (enter start c var).0 then pos 0 else remaining now (enter start c var).0))
      × (remaining_time now (enter start c var).1 ≡ some (remaining now (enter start c var).0))
unfolding check_deadline expired enter remaining remaining_positive remaining_time
expiry_checks start now c none = (ground arith, ground arith, ground arith, refl)
expiry_checks start now c (some dl) = (ground arith, ground arith, ground arith, refl)
