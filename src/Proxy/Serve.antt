-- ===== src/Proxy/Serve.antt =====
-- internal/proxy/handler.go: ServeHTTP, cut where it waits for the upstream. `begin` is the code up to the
-- call of proxyRequest, `finish` that call's outcome and the rest; between the two other requests run.
-- Each part reads the clock once. The upstream exchange (url.Parse, http.NewRequest, client.Do, io.Copy)
-- enters as its outcome.
use cell_routing_from_scratc.Prelude.{
  ℕ, String, Bool, true, not, ◌||◌, ◌&&◌, ◌==◌, Option, none, some, leb, if◌then◌else◌, lookup,
  Result, ok, err, panic,
}
use cell_routing_from_scratc.Prelude.Int.{pos, ltb_ℤ}
use cell_routing_from_scratc.Routing.{ConfigProvider, RoutingDecision, RouteError, route}
use cell_routing_from_scratc.Circuit
use cell_routing_from_scratc.Health
use cell_routing_from_scratc.Limits
use cell_routing_from_scratc.Proxy.{Handler}
use cell_routing_from_scratc.Proxy.Exchange.{
  Begun, Flight, Request, Response, Served, answered, crashed, early, forwards, plain, rejected,
  stuck,
}
use cell_routing_from_scratc.Proxy.Rerouting.{Verdict, crash, failover, go, refuse}
pub mod Slots
pub mod Traffic
pub mod Outcome
pub mod Guards
pub mod Unguarded
pub mod Frozen
pub mod Refusals
pub mod Answers
pub mod Told
pub mod Breakers
pub mod Streaks
pub mod Trips
mod Tests

-- The deferred Release on the way out.
release_then : Handler → String → Begun → Handler × Begun
release_then h acquired outcome = elim (Limits.release h.limits_manager acquired) [
  | none ↦ (h, stuck acquired)
  | some limits ↦ (record h { limits_manager = limits }, outcome)
]

launch : Handler → Request → RoutingDecision → Circuit.State → Verdict → Handler × Begun
unfolding release_then
launch h r d state refuse =
    release_then h d.placement_key
      (answered (rejected r.routing_key d 503 "circuit_open" (some state)))
launch h r d state crash = release_then h d.placement_key crashed
launch h r d state (go a) = (
  h,
  forwards (record {
    routing_key = r.routing_key;
    acquired = d.placement_key;
    decision = a.decision;
    failover_reason = a.failover_reason;
  }),
)

unfoldable pub consult : Handler → String → ℕ → Handler × Circuit.State × Bool
consult h placement now =
    let (manager, breaker) = Circuit.get_breaker h.circuit_manager placement now in
    let (breaker', allowed) = Circuit.allow breaker now in
    (
      record h { circuit_manager = Circuit.put_breaker manager placement breaker' },
      breaker'.state,
      allowed,
    )

begin_sized : Handler → Request → ℕ → RoutingDecision → Handler × Begun
unfolding launch
begin_sized h r now d =
    let (h', state, allowed) = consult h d.placement_key now in
    launch h' r d state (failover h'.config (Health.is_healthy h'.health_checker) allowed d)

unfoldable pub body_error : Handler → Request → String → Option Limits.SizeError
body_error h r placement =
    if ltb_ℤ (pos 0) r.content_length
    then Limits.validate_request_body_size h.limits_manager placement r.content_length
    else none

begin_admitted : Handler → Request → ℕ → RoutingDecision → Handler × Begun
unfolding release_then begin_sized body_error
begin_admitted h r now d = elim (body_error h r d.placement_key) [
  | some e ↦
      release_then h d.placement_key
        (answered (rejected r.routing_key d 413 "body_size_limit" none))
  | none ↦ begin_sized h r now d
]

begin_routed : Handler → Request → ℕ → Result RouteError RoutingDecision → Handler × Begun
unfolding begin_admitted
begin_routed h r now (err e) = (h, answered (early r.routing_key 500))
begin_routed h r now panic = (h, crashed)
begin_routed h r now (ok d) =
    let (limits, admitted) = Limits.try_acquire h.limits_manager d.placement_key in
    let h' = record h { limits_manager = limits } in
    if admitted
    then begin_admitted h' r now d
    else (h', answered (rejected r.routing_key d 429 "concurrency_limit" none))

unfoldable pub begin : ConfigProvider → Handler → Request → ℕ → Handler × Begun
unfolding begin_routed
begin provider h r now =
    if r.routing_key == ""
    then (h, answered (early r.routing_key 400))
    else begin_routed h r now (route provider r.routing_key)

-- What came of the exchange with the upstream: no response at all, or one with this status, whose body
-- could be copied to the client or not.
pub data Upstream : Type 0 where
  no_response : Upstream
  responded : (status : ℕ) (copied : Bool) → Upstream

failed : Upstream → Bool
failed no_response = true
failed (responded status copied) = not copied || leb 500 status

-- The breaker that `begin` consulted gets the outcome; it is the map's entry, which nothing removes.
record_outcome : Circuit.Manager → String → Bool → ℕ → Circuit.Manager
record_outcome m placement bad now = elim (lookup placement m.breakers) [
  | none ↦ m
  | some b ↦
      Circuit.put_breaker m placement
        (if bad then Circuit.record_failure b now else Circuit.record_success b now)
]

abbrev pub reason_header : String → Option String
reason_header why = if why == "" then none else some why

-- What proxyRequest writes, with the breaker that it looks up for its header.
unfoldable pub respond : Handler → Flight → Upstream → ℕ → Handler × Response
respond h f no_response now = (h, plain 502)
respond h f (responded status copied) now =
    let (manager, breaker) = Circuit.get_breaker h.circuit_manager f.decision.placement_key now in
    (
      record h { circuit_manager = manager },
      record {
        status = status;
        routed_to = some f.decision.placement_key;
        route_reason = some f.decision.reason;
        failover_reason = reason_header f.failover_reason;
        circuit_state = some breaker.state;
      },
    )

-- `statusCode` after the error handling.
final_status : Upstream → ℕ
final_status no_response = 502
final_status (responded status copied) = if not copied && leb status 0 then 502 else status

unfoldable pub release_last : Handler → String → Served → Option (Handler × Served)
release_last h acquired served = elim (Limits.release h.limits_manager acquired) [
  | none ↦ none
  | some limits ↦ some (record h { limits_manager = limits }, served)
]

-- `none` is a deferred Release that blocks.
unfoldable pub finish : Handler → Flight → Upstream → ℕ → Option (Handler × Served)
unfolding failed record_outcome respond final_status release_last
finish h f upstream now =
    let (h1, response) = respond h f upstream now in
    let h2 = record h1 {
      circuit_manager = record_outcome h1.circuit_manager f.acquired (failed upstream) now;
    } in
    release_last h2 f.acquired (record {
      response = response;
      log = record {
        routing_key = f.routing_key;
        placement_key = f.decision.placement_key;
        route_reason = some f.decision.reason;
        upstream_url = f.decision.endpoint_url;
        status_code = final_status upstream;
        failover_reason = f.failover_reason;
      };
    })
