-- ===== src/Health/Stopping/Returns.antt =====
-- How Stop comes to its return, whatever the goroutines do.
use cell_routing_from_scratc.Prelude.{ℕ, ◌+◌, ◌≤◌, ◌≡◌, ◌≢◌, true, false, All, length}
use cell_routing_from_scratc.Health.Stopping.{ended, uncalled, returned, Running, Steps}

-- What holds of where Stop is.
record IsInOrder (s : Running) : Type 0 where
  running : s.stop_at ≡ uncalled → s.checker.stopped ≡ false
  closed : s.stop_at ≢ uncalled → s.checker.stopped ≡ true
  over : s.stop_at ≡ returned → All (λ l. l.at ≡ ended) s.loops

-- Stop can be called and return within so many steps.
pub record CanReturn (s : Running) : Type 0 where
  pub count : ℕ
  pub final : Running
  pub run : Steps s count final
  pub soon : count ≤ 2 + length s.loops + length s.loops
  pub over : final.stop_at ≡ returned

record Returns (s : Running) : Type 0 where
  count : ℕ
  final : Running
  run : Steps s count final
  soon : count ≤ 1 + length s.loops + length s.loops
  over : final.stop_at ≡ returned
