-- ===== src/Circuit/Diagram.antt =====
-- The breaker's state diagram, and what each of its edges needs.
use cell_routing_from_scratc.Prelude.{ℕ, ◌+◌, ◌≤◌, ◌<◌, ◌≡◌, ◌⊎◌, List, [], ◌∷◌, String, arith}
use cell_routing_from_scratc.Circuit.{
  State, closed, opened, half_open, Config, Breaker, new_breaker, Call, allows, succeeds, fails,
  step, run, u32,
}

-- The edges, each with the call that takes it and its guard.
pub data Edge (b : Breaker) (now : ℕ) : Call → State → State → Type 0 where
  trip : b.config.failure_threshold ≤ u32 (b.failures + 1) → Edge b now fails closed opened
  probe : b.next_retry_time < now → Edge b now allows opened half_open
  recover : Edge b now succeeds half_open closed
  relapse : Edge b now fails half_open opened

-- A call leaves the state alone or follows an edge of the diagram whose guard holds.
pub step-Edge :
    (b : Breaker) (now : ℕ) (c : Call)
    → ((step b (now, c)).state ≡ b.state) ⊎ Edge b now c b.state (step b (now, c)).state
unfolding step
step-Edge b now c = grind (arith, trip, probe, recover, relapse)

-- What holds of a breaker between calls: while it is closed, the failures counted are fewer than the
-- threshold (or none, where the threshold is 0), and the count fits its 32 bits.
pub record IsSound (b : Breaker) : Type 0 where
  pub below : b.state ≡ closed → (b.failures ≡ 0) ⊎ (b.failures < b.config.failure_threshold)
  pub fits : b.failures < 4294967296

pub new_breaker-IsSound :
    (key : String) (config : Config) (now : ℕ) → IsSound (new_breaker key config now)
unfolding new_breaker
new_breaker-IsSound key config now = ground arith

pub step-IsSound : (b : Breaker) (c : ℕ × Call) → IsSound b → IsSound (step b c)
unfolding step
step-IsSound b (now, allows) h = ground arith
step-IsSound b (now, succeeds) h = ground arith
step-IsSound b (now, fails) h = ground arith

pub step-config : (b : Breaker) (c : ℕ × Call) → (step b c).config ≡ b.config
unfolding step
step-config b (now, allows) = ground arith
step-config b (now, succeeds) = ground arith
step-config b (now, fails) = ground arith

-- Every sequence of calls keeps a sound breaker sound.
pub run-IsSound : (b : Breaker) (cs : List (ℕ × Call)) → IsSound b → IsSound (run b cs)
unfolding run
run-IsSound b [] h = h
run-IsSound b (c ∷ cs) h = run-IsSound (step b c) cs (step-IsSound b c h)
