-- ===== src/Proxy/Samples.antt =====
-- A handler with two placements, one of them with an open circuit, and requests that it serves.
use cell_routing_from_scratc.Prelude.{
  ◌≡◌, refl, ◌≢◌, String, true, false, none, some, [], ◌∷◌, lookup, insert, arith, eq_iff, ok,
  GoMap, All, ◌==◌, if◌then◌else◌, inl, inr, Option-cases,
}
use cell_routing_from_scratc.Prelude.Int.{pos}
use cell_routing_from_scratc.Config.{get_cell_endpoints, get_placement_config, parse_health_check}
use cell_routing_from_scratc.Config.Samples.{sample_library, placements_sample, visa_placement}
use cell_routing_from_scratc.Config.Validity.{IsValid, PlacementIsValid}
use cell_routing_from_scratc.Routing.{ConfigProvider, RoutingDecision, dedicated, route, is_tier}
use cell_routing_from_scratc.Circuit
use cell_routing_from_scratc.Circuit.{closed, opened}
use cell_routing_from_scratc.Health
use cell_routing_from_scratc.Limits
use cell_routing_from_scratc.Limits.Agreement.{limit_of}
use cell_routing_from_scratc.Limits.Slots.{Built, fresh, configured}
use cell_routing_from_scratc.Proxy.{Handler, default_checks, default_circuit, new_handler}
use cell_routing_from_scratc.Proxy.Startup.{new_handler-Built}
use cell_routing_from_scratc.Proxy.Exchange.{Request, Served, Flight, forwards}
use cell_routing_from_scratc.Proxy.Rerouting.{
  go, Attempt, failover, after_circuit, after_health, fallback_of,
}
use cell_routing_from_scratc.Proxy.Serve.{
  begin, consult, body_error, no_response, responded, finish,
}
use cell_routing_from_scratc.Proxy.Serve.Traffic.{
  Traffic, arrive, Moves, here, then, arrived, quiet, never_stuck,
}
use cell_routing_from_scratc.Http.{get, values, HttpRequest}
use cell_routing_from_scratc.Proxy.Forward.{request_of, Net}
use cell_routing_from_scratc.Proxy.Serve.Outcome.{allows_at}

abbrev pub endpoints : GoMap String
endpoints = ("tier3", "http://cell-tier3:9003") ∷ ("visa", "http://cell-visa:9004") ∷ []

pub sample_versioned : placements_sample.version ≢ ""
sample_versioned e = ground (arith, e, eq_iff "2.0.0" "")

pub sample_served : get_cell_endpoints placements_sample ≡ some endpoints
unfolding get_cell_endpoints
sample_served = refl

pub sample_lookups :
    (lookup "tier3" endpoints ≡ some "http://cell-tier3:9003")
    × (lookup "visa" endpoints ≡ some "http://cell-visa:9004")
unfolding lookup
sample_lookups = (refl, refl)

pub sample_urls : All (λ e. sample_library.parse_url e.1 ≢ none) endpoints
sample_urls = (λ e. cc, (λ e. cc, tt))

pub sample_placements :
    All (λ e. PlacementIsValid sample_library endpoints e.1) placements_sample.placements
unfolding lookup
sample_placements = (
  (inl refl, ((λ e. cc, λ e. cc), λ e. cc)),
  ((inr ("http://cell-tier3:9003", refl), ((λ e. cc, λ e. cc), λ e. cc)), tt),
)

-- Validity with its endpoints in sight.
abbrev pub sample_valid : IsValid sample_library placements_sample
sample_valid = record {
  endpoints = endpoints;
  versioned = sample_versioned;
  served = sample_served;
  default_known = ("http://cell-tier3:9003", sample_lookups.0);
  routes_known = (("http://cell-visa:9004", sample_lookups.1), tt);
  urls_parse = sample_urls;
  placements_valid = sample_placements;
}

abbrev limited : Limits.Config
limited = record { max_concurrent_requests = pos 1; max_request_body_bytes = pos 0 }

abbrev pub well : Circuit.Breaker
well = record {
  placement_key = "tier3";
  config = default_circuit;
  state = closed;
  failures = 1;
  last_state_change = 0;
  next_retry_time = 0;
}

abbrev pub shut : Circuit.Breaker
shut = record well { placement_key = "visa"; state = opened; failures = 5; next_retry_time = 100 }

abbrev pub handler : Handler
handler = record {
  config = placements_sample;
  health_checker = Health.new_checker default_checks;
  retired = [];
  circuit_manager = record {
    breakers = ("visa", shut) ∷ ("tier3", well) ∷ [];
    config = default_circuit;
  };
  limits_manager = Limits.set_config Limits.new_manager "visa" limited;
}

pub handler-Built : Built handler.limits_manager
handler-Built = configured "visa" limited fresh

abbrev pub router : ConfigProvider
router = record {
  get_routing_table = placements_sample.routing_table;
  get_cell_endpoints = endpoints;
  get_default_placement = "tier3";
}

abbrev pub visa_request : Request
visa_request = record { routing_key = "visa"; content_length = pos 0 }

abbrev pub visa_decision : RoutingDecision
visa_decision = record {
  placement_key = "visa";
  reason = dedicated;
  endpoint_url = "http://cell-visa:9004";
}

abbrev pub rerouted : Attempt
rerouted = record {
  decision = record visa_decision {
    placement_key = "tier3";
    endpoint_url = "http://cell-tier3:9003";
  };
  failover_reason = "circuit_open";
}

abbrev pub visa_flight : Flight
visa_flight = record {
  routing_key = "visa";
  acquired = "visa";
  decision = rerouted.decision;
  failover_reason = "circuit_open";
}

pub visa_fails_over : (begin router handler visa_request 10).1 ≡ forwards visa_flight
unfolding begin consult body_error failover after_circuit after_health fallback_of
    get_placement_config get_cell_endpoints route is_tier lookup insert Limits.try_acquire
    Limits.set_config Limits.new_manager Circuit.get_breaker Circuit.allow Circuit.put_breaker
    Health.is_healthy Health.new_checker
visa_fails_over = refl

pub sample_handler :
    (h : Handler) × (new_handler sample_library placements_sample ≡ some h) × Built h.limits_manager
sample_handler = new_handler-Built sample_library placements_sample sample_valid

pub parsed_visa :
    parse_health_check sample_library (record { path = "/health"; interval = "5s"; timeout = "2s" })
    ≡ ok (record { path = "/health"; interval = pos 5000000000; timeout = pos 2000000000 })
unfolding parse_health_check
parsed_visa = refl

pub visa_placed : get_placement_config placements_sample "visa" ≡ some (some visa_placement)
unfolding get_placement_config lookup
visa_placed = refl

abbrev pub busy : Traffic
busy = arrived (quiet handler) (begin router handler visa_request 10)

pub busy-Moves : Moves (quiet handler) busy
busy-Moves = (then) here (arrive router visa_request 10)

pub busy_flights : busy.flights ≡ visa_flight ∷ []
unfolding begin consult body_error failover after_circuit after_health fallback_of
    get_placement_config get_cell_endpoints route is_tier lookup insert Limits.try_acquire
    Limits.set_config Limits.new_manager Circuit.get_breaker Circuit.allow Circuit.put_breaker
    Health.is_healthy Health.new_checker
busy_flights = refl

pub visa_limit : limit_of (lookup "visa" handler.limits_manager.config) ≡ some 1
unfolding lookup insert Limits.set_config Limits.new_manager
visa_limit = refl

pub finished : (r : Handler × Served) × (finish busy.handler visa_flight no_response 20 ≡ some r)
finished = elim (Option-cases (finish busy.handler visa_flight no_response 20)) [
  | inl stays ↦ absurd (
      (never_stuck handler [] [] visa_flight no_response 20 handler-Built busy-Moves busy_flights).1
        stays)
  | inr r ↦ r
]

pub busy_breakers :
    (lookup "visa" busy.handler.circuit_manager.breakers ≡ some shut)
    × (lookup "tier3" busy.handler.circuit_manager.breakers ≡ some well)
unfolding begin consult body_error failover after_circuit after_health fallback_of
    get_placement_config get_cell_endpoints route is_tier lookup insert Limits.try_acquire
    Limits.set_config Limits.new_manager Circuit.get_breaker Circuit.allow Circuit.put_breaker
    Health.is_healthy Health.new_checker
busy_breakers = (refl, refl)

pub visa_routed : route router "visa" ≡ ok visa_decision
unfolding route is_tier lookup
visa_routed = refl

pub visa_admitted : (Limits.try_acquire handler.limits_manager "visa").1 ≡ true
unfolding Limits.try_acquire Limits.set_config Limits.new_manager lookup insert
visa_admitted = refl

pub visa_shut : allows_at handler "visa" 10 ≡ false
unfolding Circuit.get_breaker Circuit.allow lookup
visa_shut = refl

pub visa_redirected : after_circuit placements_sample false visa_decision ≡ go rerouted
unfolding after_circuit fallback_of get_placement_config get_cell_endpoints lookup
visa_redirected = refl

pub tier3_healthy : Health.is_healthy handler.health_checker "tier3" ≡ true
unfolding Health.is_healthy Health.new_checker lookup
tier3_healthy = refl

pub served_well :
    (r : Handler × Served) × (finish busy.handler visa_flight (responded 200 true) 20 ≡ some r)
served_well = elim (Option-cases (finish busy.handler visa_flight (responded 200 true) 20)) [
  | inl stays ↦ absurd (
      (never_stuck handler [] [] visa_flight (responded 200 true) 20 handler-Built busy-Moves
          busy_flights).1
        stays)
  | inr r ↦ r
]

abbrev pub net : Net
net = record {
  split_host = λ a. if a == "10.0.0.7:51234" then "10.0.0.7" else "";
  accepts = λ method scheme host path raw_query. true;
}

-- Two proxies, each with a line of its own, have forwarded it.
abbrev pub twice_forwarded : HttpRequest
twice_forwarded = record {
  method = "GET";
  path = "/pay";
  raw_query = "";
  header = ("X-Routing-Key", "visa" ∷ []) ∷ ("X-Forwarded-For", "1.1.1.1" ∷ "2.2.2.2" ∷ []) ∷ [];
  remote_addr = "10.0.0.7:51234";
  tls = false;
  content_length = pos 0;
}

pub visa_request_of : request_of twice_forwarded ≡ visa_request
unfolding request_of get values lookup
visa_request_of = refl
