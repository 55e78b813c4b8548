-- ===== src/Breaker/History.antt =====
-- The state changes that the callback is told of form a path of the breaker's state machine.
use comfyui_engine.Prelude.{ℕ, ◌≡◌, Bool, true, false, List, [], ◌∷◌, arith, count_if}
use comfyui_engine.Breaker.{
  State, Config, Breaker, closed, open_circuit, half_open, is_open, admit, settle, returns, raises,
  cancelled, Outcome,
}
use comfyui_engine.Breaker.Steps.{World, Step, begin, refuse, finish, Reach, here, next, start}

-- The four arrows of the state machine.
abbrev pub is_arrow : State → State → Bool
is_arrow closed open_circuit = true
is_arrow open_circuit half_open = true
is_arrow half_open closed = true
is_arrow half_open open_circuit = true
is_arrow _ _ = false

-- The changes, newest first, lead from CLOSED to the state by arrows of the machine.
abbrev pub IsPathTo : State → List (State × State) → Type 0
IsPathTo s [] = s ≡ closed
IsPathTo s ((old, new) ∷ l) = (new ≡ s) × (is_arrow old new ≡ true) × IsPathTo old l

pub record IsRecorded (b : Breaker) : Type 0 where
  pub path : IsPathTo b.state b.changes
  pub counted : b.trips ≡ count_if (λ ch. is_open ch.1) b.changes

admit-IsRecorded :
    (c : Config) (now : ℕ) (b : Breaker) → IsRecorded b → IsRecorded (admit c now b).0
unfolding admit
admit-IsRecorded c now b h = ground arith

settle-IsRecorded :
    (c : Config) (out : Outcome) (b : Breaker) → IsRecorded b → IsRecorded (settle c out b)
unfolding settle
settle-IsRecorded c returns b h = ground arith
settle-IsRecorded c (raises now) b h = ground arith
settle-IsRecorded c cancelled b h = h

Step-IsRecorded :
    {c : Config} {u v : World} → Step c u v → IsRecorded u.breaker → IsRecorded v.breaker
Step-IsRecorded {c} (begin w now a) h = admit-IsRecorded c now w.breaker h
Step-IsRecorded {c} (refuse w now) h = admit-IsRecorded c now w.breaker h
Step-IsRecorded {c} (finish w n out e) h = settle-IsRecorded c out w.breaker h

-- In every state that any interleaving reaches from the start, the changes given to the callback
-- form a path of the state machine from CLOSED to the present state (CLOSED to OPEN, OPEN to
-- HALF_OPEN, HALF_OPEN to CLOSED or OPEN), and the metrics counter is the number of changes to OPEN.
Reach-IsRecorded : {c : Config} {w : World} → Reach c start w → IsRecorded w.breaker
Reach-IsRecorded here = ground arith
Reach-IsRecorded (next r st) = Step-IsRecorded st (Reach-IsRecorded r)
