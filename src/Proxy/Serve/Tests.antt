-- ===== src/Proxy/Serve/Tests.antt =====
-- The handler and ServeHTTP at concrete inputs.
use cell_routing_from_scratc.Prelude.{
  ◌≤◌, ◌≡◌, refl, ◌≢◌, ◌⊎◌, String, Bool, true, false, none, some, [], ◌∷◌, lookup, arith, eq_iff,
}
use cell_routing_from_scratc.Prelude.Int.{pos}
use cell_routing_from_scratc.Config.Samples.{sample_library, placements_sample, visa_placement}
use cell_routing_from_scratc.Health
use cell_routing_from_scratc.Prelude.{lookup, insert}
use cell_routing_from_scratc.Config.{Config, PlacementConfig, validate, get_placement_config}
use cell_routing_from_scratc.Config.Validity.{IsValid, validate-IsValid_iff}
use cell_routing_from_scratc.Config.Samples.{tier3_placement}
use cell_routing_from_scratc.Proxy.{Handler, default_checks}
use cell_routing_from_scratc.Proxy.Rerouting.{to}
use cell_routing_from_scratc.Limits.Slots.{count}
use cell_routing_from_scratc.Proxy.Startup.{earlier_checks_lost}
use cell_routing_from_scratc.Health.Checks.{after_checks}
use cell_routing_from_scratc.Proxy.Exchange.{Served, Flight, answered, forwards}
use cell_routing_from_scratc.Proxy.Rerouting.{
  go, refuse, Attempt, failover, fallback_of, no_fallback,
}
use cell_routing_from_scratc.Proxy.Serve.{begin, no_response, responded, finish}
use cell_routing_from_scratc.Proxy.Serve.Traffic.{placements, flights-le, never_stuck}
use cell_routing_from_scratc.Proxy.Rerouting.Hops.{CircuitHop, HealthHop, Serves, failover_lem}
use cell_routing_from_scratc.Proxy.Serve.Refusals.{Refused}
use cell_routing_from_scratc.Proxy.Serve.Answers.{begin_total}
use cell_routing_from_scratc.Proxy.Serve.Outcome.{told, finish-told}
use cell_routing_from_scratc.Proxy.Serve.Guards.{Cleared}
use cell_routing_from_scratc.Proxy.Serve.Unguarded.{circuit_bypassed}
use cell_routing_from_scratc.Proxy.Samples.{
  sample_served, sample_lookups, sample_valid, well, shut, handler, handler-Built, router,
  visa_request, visa_decision, visa_flight, sample_handler, parsed_visa, visa_placed, busy,
  busy-Moves, busy_flights, visa_limit, finished, busy_breakers, visa_routed, visa_admitted,
  visa_shut,
}

-- "tier3" is taken for healthy after a failed check of the last placement's object.
earlier_checks_lost_example :
    Health.is_healthy
      (after_checks sample_handler.0.health_checker ((0, Health.request_failed, 9) ∷ []))
      "tier3"
    ≡ true
earlier_checks_lost_example =
    earlier_checks_lost sample_library placements_sample sample_handler.0
      (("tier3", "http://cell-tier3:9003") ∷ []) "visa" "http://cell-visa:9004" "tier3"
      visa_placement (record { path = "/health"; interval = "5s"; timeout = "2s" })
      (record { path = "/health"; interval = pos 5000000000; timeout = pos 2000000000 })
      ((0, Health.request_failed, 9) ∷ []) sample_handler.1 sample_served visa_placed refl
      parsed_visa (λ e. ground (arith, eq_iff "visa" "tier3", e))

flights-le_example : count "visa" (placements busy.flights) ≤ 1
flights-le_example = flights-le handler "visa" 1 handler-Built busy-Moves visa_limit

never_stuck_example :
    (busy.blocked ≡ []) × (finish busy.handler visa_flight (responded 200 true) 20 ≢ none)
never_stuck_example =
    never_stuck handler [] [] visa_flight (responded 200 true) 20 handler-Built busy-Moves
      busy_flights

failover_lem_example :
    ((failover placements_sample (λ p. true) false visa_decision ≡ refuse)
      × (◌≡◌ {A = Bool} false false)
      × (fallback_of placements_sample "visa" ≡ no_fallback))
    ⊎ ((a : Attempt) × (failover placements_sample (λ p. true) false visa_decision ≡ go a)
        × ((q : String) × (why : String) × CircuitHop placements_sample false "visa" q why
            × HealthHop placements_sample
                (λ p. true)
                q
                a.decision.placement_key
                why
                a.failover_reason)
        × Serves sample_library placements_sample sample_valid a.decision)
failover_lem_example =
    failover_lem sample_library placements_sample sample_valid (λ p. true) false visa_decision
      sample_lookups.1

-- The slot of "visa" is taken by the first request.
begin_total_example :
    ((s : Served) × ((begin router busy.handler visa_request 20).1 ≡ answered s)
      × Refused router busy.handler visa_request 20 s)
    ⊎ ((f : Flight) × ((begin router busy.handler visa_request 20).1 ≡ forwards f)
        × Cleared router busy.handler visa_request 20 f)
begin_total_example =
    begin_total sample_library handler router visa_request 20 sample_valid handler-Built busy-Moves

-- The request failed over from "visa" to "tier3" fails there: "visa" is told.
finish-told_example :
    (lookup "visa" finished.0.0.circuit_manager.breakers ≡ some (told shut no_response 20))
    × (lookup "tier3" finished.0.0.circuit_manager.breakers ≡ some well)
finish-told_example =
    finish-told busy.handler finished.0.0 visa_flight no_response 20 finished.0.1 shut well
      finished.1 busy_breakers.0 busy_breakers.1 (λ e. ground (arith, e, eq_iff "visa" "tier3"))

-- "visa" and "tier3" are each other's fallback.
abbrev tier3_with_fallback : PlacementConfig
tier3_with_fallback = record tier3_placement { fallback = "visa" }

abbrev each_other : Config
each_other = record placements_sample {
  placements = ("tier3", some tier3_with_fallback) ∷ ("visa", some visa_placement) ∷ [];
}

each_other-IsValid : IsValid sample_library each_other
unfolding validate lookup
each_other-IsValid = (validate-IsValid_iff sample_library each_other).0 refl

abbrev tier3_ill : Handler
tier3_ill = record handler {
  config = each_other;
  health_checker =
      Health.perform_check
        (Health.register_endpoint (Health.new_checker default_checks) "tier3"
          "http://cell-tier3:9003")
        0 Health.request_failed 9;
}

each_other_fallbacks :
    (fallback_of each_other "visa" ≡ to "tier3")
    × (fallback_of each_other "tier3" ≡ to "visa")
    × (Health.is_healthy tier3_ill.health_checker "tier3" ≡ false)
unfolding fallback_of get_placement_config lookup insert Health.is_healthy Health.perform_check
    Health.register_endpoint Health.new_checker Health.state_of
each_other_fallbacks = (refl, refl, refl)

circuit_bypassed_example :
    (f : Flight) × ((begin router tier3_ill visa_request 10).1 ≡ forwards f)
    × (f.decision.placement_key ≡ "visa")
    × (f.failover_reason ≡ "upstream_unhealthy")
circuit_bypassed_example =
    circuit_bypassed sample_library router tier3_ill visa_request 10 visa_decision "tier3"
      each_other-IsValid (λ e. ground (arith, e, eq_iff "visa" "")) visa_routed visa_admitted refl
      visa_shut each_other_fallbacks.0 each_other_fallbacks.1 each_other_fallbacks.2
