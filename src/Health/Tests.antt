-- ===== src/Health/Tests.antt =====
-- Checks of two placements, and the theorems at concrete inputs.
use cell_routing_from_scratc.Prelude.{
  ◌≡◌, refl, true, false, none, some, [], ◌∷◌, lookup, insert, arith, eq_iff,
}
use cell_routing_from_scratc.Prelude.Int.{pos}
use cell_routing_from_scratc.Health.{
  Checker, CheckConfig, request_failed, responded, healthy, unhealthy, new_checker,
  register_endpoint, perform_check, check_loop, is_healthy, get_state, stop, state_of,
}
use cell_routing_from_scratc.Health.Store.{IsSound, new_checker-IsSound, register_endpoint-IsSound}
use cell_routing_from_scratc.Health.Stopping.{selecting, waiting, Running, checks as makes_check}
use cell_routing_from_scratc.Health.Checks.{perform_check-is_healthy}

abbrev every_second : CheckConfig
every_second = record { path = "/health"; interval = pos 1000000000; timeout = pos 1000000000 }

abbrev one : Checker
one = register_endpoint (new_checker every_second) "visa" "http://cell-visa:9004"

abbrev two : Checker
two = register_endpoint one "tier3" "http://cell-tier3:9003"

one-IsSound : IsSound one
one-IsSound =
    register_endpoint-IsSound (new_checker every_second) "visa" "http://cell-visa:9004"
      (new_checker-IsSound every_second)

two-IsSound : IsSound two
two-IsSound = register_endpoint-IsSound one "tier3" "http://cell-tier3:9003" one-IsSound

both_checks :
    (is_healthy (perform_check two 0 request_failed 5) "visa" ≡ false)
    × (is_healthy (perform_check two 0 (responded 204) 5) "visa" ≡ true)
    × (get_state (perform_check two 0 (responded 500) 5) "visa" ≡ unhealthy)
    × (get_state two "unknown" ≡ healthy)
    × (check_loop (record two { config = record every_second { interval = pos 0 } }) 0 [] ≡ none)
    × (stop (record two { stopped = true }) ≡ none)
unfolding is_healthy get_state perform_check register_endpoint new_checker lookup insert check_loop
    stop state_of
both_checks = (refl, refl, refl, refl, refl, refl)

visa_address : lookup "visa" two.endpoints ≡ some 0
unfolding register_endpoint new_checker lookup insert
visa_address = refl

perform_check-is_healthy_example :
    (is_healthy (perform_check two 0 request_failed 5) "visa" ≡ false)
    × (is_healthy (perform_check two 0 request_failed 5) "tier3" ≡ is_healthy two "tier3")
perform_check-is_healthy_example =
    perform_check-is_healthy two "visa" "tier3" 0 request_failed 5 two-IsSound visa_address
      (λ e. ground (arith, eq_iff "visa" "tier3", e))

-- The only goroutine has made its first check, then Stop has been called.
abbrev stopping : Running
stopping = record {
  checker = record (perform_check one 0 (responded 200) 5) { stopped = true };
  loops = record { address = 0; at = selecting } ∷ [];
  stop_at = waiting;
}
