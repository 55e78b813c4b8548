-- ===== src/Breaker/Steps.antt =====
-- The breaker among concurrent tasks: each locked block of `call` is one step, and any number of
-- admitted calls may be in flight between them.
use comfyui_engine.Prelude.{ℕ, suc, ◌≡◌}
use comfyui_engine.Breaker.{Config, Breaker, admitted, Outcome, init, admit, settle}

pub record World : Type 0 where
  pub breaker : Breaker
  pub in_flight : ℕ

abbrev pub start : World
start = record { breaker = init; in_flight = 0 }

-- A call is admitted, a call is refused, or a call in flight ends.
pub data Step (c : Config) : World → World → Type 0 where
  begin :
      (w : World) (now : ℕ)
      → (admit c now w.breaker).1 ≡ admitted
      → Step c w (record { breaker = (admit c now w.breaker).0; in_flight = suc w.in_flight })
  refuse : (w : World) (now : ℕ) → Step c w (record w { breaker = (admit c now w.breaker).0 })
  finish :
      (w : World) (n : ℕ) (out : Outcome)
      → w.in_flight ≡ suc n
      → Step c w (record { breaker = settle c out w.breaker; in_flight = n })

pub data Reach (c : Config) (w : World) : World → Type 0 where
  here : Reach c w w
  next : {u v : World} → Reach c w u → Step c u v → Reach c w v
