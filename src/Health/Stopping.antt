-- ===== src/Health/Stopping.antt =====
-- internal/health/checker.go: `Stop` beside the goroutines of checkLoop. A goroutine is in a check, or at
-- its select, or has ended; what the select takes when a tick and the closed stopCh are both ready is any
-- choice of a step. No endpoint is registered any more.
use cell_routing_from_scratc.Prelude.{ℕ, suc, ◌+◌, ◌≡◌, true, some, List, ◌∷◌, ◌++◌, map, All}
use cell_routing_from_scratc.Health.{Checker, CheckOutcome, perform_check, stop}
pub mod Ending
pub mod Returns

pub data LoopAt : Type 0 where
  checking selecting ended : LoopAt

-- A goroutine, with the address of its endpoint.
pub record Loop : Type 0 where
  pub address : ℕ
  pub at : LoopAt

-- Where the goroutine is that calls Stop.
pub data StopAt : Type 0 where
  uncalled waiting returned : StopAt

pub record Running : Type 0 where
  pub checker : Checker
  pub loops : List Loop
  pub stop_at : StopAt

-- The goroutines of the endpoints that were registered, each before its first check.
abbrev pub started : Checker → Running
started c = record {
  checker = c;
  loops = map (λ l. record { address = l.1; at = checking }) c.loops;
  stop_at = uncalled;
}

pub data Step (s : Running) : Running → Type 0 where
  checks :
      (before after : List Loop) (l : Loop) (outcome : CheckOutcome) (now : ℕ)
      → s.loops ≡ before ++ l ∷ after
      → l.at ≡ checking
      → Step s (record s {
        checker = perform_check s.checker l.address outcome now;
        loops = before ++ record l { at = selecting } ∷ after;
      })
  ticks :
      (before after : List Loop) (l : Loop)
      → s.loops ≡ before ++ l ∷ after
      → l.at ≡ selecting
      → Step s (record s { loops = before ++ record l { at = checking } ∷ after })
  sees_stop :
      (before after : List Loop) (l : Loop)
      → s.loops ≡ before ++ l ∷ after
      → l.at ≡ selecting
      → s.checker.stopped ≡ true
      → Step s (record s { loops = before ++ record l { at = ended } ∷ after })
  calls_stop :
      (c : Checker)
      → s.stop_at ≡ uncalled
      → stop s.checker ≡ some c
      → Step s (record s { checker = c; stop_at = waiting })
  returns :
      s.stop_at ≡ waiting
      → All (λ l. l.at ≡ ended) s.loops
      → Step s (record s { stop_at = returned })

-- `Steps s n t`: n steps lead from s to t.
pub data Steps (s : Running) : ℕ → Running → Type 0 where
  here : Steps s 0 s
  next : {n : ℕ} {t u : Running} → Steps s n t → Step t u → Steps s (suc n) u
