-- ===== src/Proxy/Serve/Trips/Tests.antt =====
-- A breaker of "visa" that opens at the second failure, and the two requests that fail.
use cell_routing_from_scratc.Prelude.{
  ◌≡◌, refl, String, Option, none, some, [], ◌∷◌, lookup, insert, arith,
}
use cell_routing_from_scratc.Config.{get_cell_endpoints, get_placement_config}
use cell_routing_from_scratc.Routing.{route, is_tier}
use cell_routing_from_scratc.Circuit
use cell_routing_from_scratc.Health
use cell_routing_from_scratc.Limits
use cell_routing_from_scratc.Proxy.{Handler}
use cell_routing_from_scratc.Proxy.Exchange.{Served, Flight, early, forwards}
use cell_routing_from_scratc.Proxy.Rerouting.{
  failover, after_circuit, after_health, fallback_of, to,
}
use cell_routing_from_scratc.Proxy.Rerouting.Hops.{HealthHop}
use cell_routing_from_scratc.Proxy.Serve.{
  begin, consult, body_error, no_response, finish, respond, release_last,
}
use cell_routing_from_scratc.Proxy.Serve.Traffic.{
  Traffic, arrive, complete, Moves, here, then, arrived, quiet,
}
use cell_routing_from_scratc.Proxy.Samples.{
  well, handler, router, visa_request, visa_decision, visa_flight, visa_routed,
}
use cell_routing_from_scratc.Proxy.Serve.Trips.{finish-trips_circuit}

abbrev brittle : Circuit.Breaker
brittle = record well {
  placement_key = "visa";
  config = record { failure_threshold = 2; timeout = 50 };
  failures = 0;
}

abbrev start : Handler
start = record handler {
  circuit_manager = record handler.circuit_manager {
    breakers = ("visa", brittle) ∷ ("tier3", well) ∷ [];
  };
}

abbrev direct_flight : Flight
direct_flight = record visa_flight { decision = visa_decision; failover_reason = "" }

-- What a completed request leaves behind, `h` where it is stuck.
abbrev left_by : Handler → Option (Handler × Served) → Handler × Served
left_by h none = (h, early "" 500)
left_by h (some r) = r

abbrev first_request : Traffic
first_request = arrived (quiet start) (begin router start visa_request 10)

abbrev first_failure : Handler × Served
first_failure = left_by start (finish first_request.handler direct_flight no_response 20)

abbrev once_failed : Traffic
once_failed = record first_request { handler = first_failure.0; flights = [] }

abbrev second_request : Traffic
second_request = arrived once_failed (begin router first_failure.0 visa_request 25)

abbrev second_failure : Handler × Served
second_failure = left_by start (finish second_request.handler direct_flight no_response 30)

abbrev twice_failed : Traffic
twice_failed = record second_request { handler = second_failure.0; flights = [] }

computed :
    (first_request.flights ≡ direct_flight ∷ [])
    × (finish first_request.handler direct_flight no_response 20 ≡ some first_failure)
    × (finish second_request.handler direct_flight no_response 30 ≡ some second_failure)
    × (lookup "visa" start.circuit_manager.breakers ≡ some brittle)
    × ((begin router second_failure.0 visa_request 60).1 ≡ forwards visa_flight)
unfolding begin consult body_error failover after_circuit after_health fallback_of
    get_placement_config get_cell_endpoints route is_tier lookup insert Limits.try_acquire
    Limits.set_config Limits.new_manager Limits.release Circuit.get_breaker Circuit.allow
    Circuit.put_breaker Circuit.record_failure Health.is_healthy Health.new_checker finish respond
    release_last
computed = (refl, refl, refl, refl, refl)

abbrev leading : Moves (quiet start) second_request
leading =
    (then)
      ((then) ((then) here (arrive router visa_request 10)) (
        complete [] [] direct_flight no_response 20 first_failure.0 first_failure.1 computed.0
          computed.1))
      (arrive router visa_request 25)

finish-trips_circuit_example :
    (target : String) × (fallback_of second_failure.0.config "visa" ≡ to target)
    × HealthHop second_failure.0.config
        (Health.is_healthy second_failure.0.health_checker)
        target
        visa_flight.decision.placement_key
        "circuit_open"
        visa_flight.failover_reason
finish-trips_circuit_example =
    finish-trips_circuit "visa" brittle leading direct_flight no_response 30 second_failure.0
      second_failure.1 [] here router visa_request 60 visa_decision visa_flight (omega arith)
      computed.3 refl refl (refl, tt) refl computed.2 refl refl tt (omega arith) visa_routed refl
      computed.4
