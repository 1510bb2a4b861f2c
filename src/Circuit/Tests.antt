-- ===== src/Circuit/Tests.antt =====
-- Runs of a breaker on concrete calls, and the theorems at concrete inputs.
use cell_routing_from_scratc.Prelude.{◌+◌, ◌≡◌, refl, true, false, [], ◌∷◌, arith}
use cell_routing_from_scratc.Circuit.{
  closed, opened, Config, Breaker, Manager, allows, succeeds, fails, new_breaker, step, run,
  answers,
}
use cell_routing_from_scratc.Circuit.Counting.{record_all, record_all-has_streak}
use cell_routing_from_scratc.Circuit.Window.{asks, half_open_until_outcome}
use cell_routing_from_scratc.Prelude.{All}
use cell_routing_from_scratc.Circuit.{run}

abbrev two_strikes : Config
two_strikes = record { failure_threshold = 2; timeout = 30 }

abbrev fresh : Breaker
fresh = record {
  placement_key = "tier1";
  config = two_strikes;
  state = closed;
  failures = 0;
  last_state_change = 5;
  next_retry_time = 0;
}

abbrev tripped : Breaker
tripped = record fresh {
  state = opened;
  failures = 2;
  last_state_change = 11;
  next_retry_time = 41;
}

trip_run : run (new_breaker "tier1" two_strikes 5) ((10, fails) ∷ (11, fails) ∷ []) ≡ tripped
unfolding run step new_breaker
trip_run = refl

recovery_run :
    answers tripped ((41, allows) ∷ (42, allows) ∷ (43, succeeds) ∷ (44, allows) ∷ [])
    ≡ false ∷ true ∷ true ∷ []
unfolding answers step
recovery_run = refl

record_all-has_streak_example :
    (record_all fresh ((1, false) ∷ (2, true) ∷ (3, false) ∷ (4, false) ∷ (5, true) ∷ [])).state
    ≡ opened
record_all-has_streak_example =
    record_all-has_streak fresh ((1, false) ∷ (2, true) ∷ (3, false) ∷ (4, false) ∷ (5, true) ∷ [])
      refl refl (omega arith) (omega arith)

-- Three requests after the retry time.
half_open_until_outcome_example :
    let probed = run tripped (asks (42 ∷ 43 ∷ 43 ∷ [])) in
    All (λ answer. answer ≡ true) (answers tripped (asks (42 ∷ 43 ∷ 43 ∷ [])))
    × ((step probed (44, succeeds)).state ≡ closed)
    × ((step probed (44, succeeds)).failures ≡ 0)
    × ((step probed (44, fails)).state ≡ opened)
    × ((step probed (44, fails)).next_retry_time ≡ 44 + 30)
half_open_until_outcome_example =
    half_open_until_outcome tripped 42 44 (43 ∷ 43 ∷ []) refl (omega arith)

abbrev one_breaker : Manager
one_breaker = record { breakers = ("tier1", tripped) ∷ []; config = two_strikes }
