-- ===== src/Proxy/Logs.antt =====
-- internal/proxy/handler.go: the log lines of ServeHTTP. The clock's reading is the text that the logger
-- writes; `err.Error()` is an argument.
use cell_routing_from_scratc.Prelude.{
  ℕ, String, ◌<>◌, Bool, true, false, ◌==◌, Option, none, some, List, [], ◌∷◌, if◌then◌else◌,
}
use cell_routing_from_scratc.Prelude.Int.{ℤ, pos}
use cell_routing_from_scratc.Config.{Config}
use cell_routing_from_scratc.Routing.{RouteReason, RoutingDecision}
use cell_routing_from_scratc.Circuit
use cell_routing_from_scratc.Http.{HttpRequest}
use cell_routing_from_scratc.Logging
use cell_routing_from_scratc.Logging.{text, int, micros, Entry, log_error, log_info}
use cell_routing_from_scratc.Proxy.Exchange.{RequestLog}
use cell_routing_from_scratc.Proxy.Rerouting.{
  no_fallback, to, nil_pointer, fallback_of, Attempt, Verdict, go, refuse, crash, redirect,
}
use cell_routing_from_scratc.Proxy.Forward.{reason_text, state_text}
pub mod Lines

abbrev pub text_of_reason : Option RouteReason → String
text_of_reason none = ""
text_of_reason (some reason) = reason_text reason

-- The entry of `logRequest`, after a duration in microseconds.
unfoldable pub log_request :
    (now request_id : String) → HttpRequest → RequestLog → (duration : ℕ) → Entry
unfolding log_info Logging.log_request
log_request now request_id r l duration =
    if l.failover_reason == ""
    then Logging.log_request now (record {
      request_id = request_id;
      method = r.method;
      path = r.path;
      routing_key = l.routing_key;
      placement_key = l.placement_key;
      route_reason = text_of_reason l.route_reason;
      upstream_url = l.upstream_url;
      status_code = pos l.status_code;
      duration = duration;
    })
    else log_info now ("request completed with failover: " <> l.failover_reason) (
        ("request_id", text request_id)
        ∷ ("method", text r.method)
        ∷ ("path", text r.path)
        ∷ ("routing_key", text l.routing_key)
        ∷ ("placement_key", text l.placement_key)
        ∷ ("route_reason", text (text_of_reason l.route_reason))
        ∷ ("upstream_url", text l.upstream_url)
        ∷ ("status_code", int (pos l.status_code))
        ∷ ("duration_ms", micros duration)
        ∷ ("failover_reason", text l.failover_reason)
        ∷ [])

abbrev pub missing_key_log : (now request_id : String) → Entry
missing_key_log now request_id =
    log_error now "missing routing key" none (("request_id", text request_id) ∷ [])

abbrev pub routing_error_log : (now request_id routing_key error : String) → Entry
routing_error_log now request_id routing_key error =
    log_error now "routing error" (some error)
      (("request_id", text request_id) ∷ ("routing_key", text routing_key) ∷ [])

abbrev pub concurrency_log : (now request_id routing_key placement_key : String) → Entry
concurrency_log now request_id routing_key placement_key =
    log_error now "concurrency limit exceeded" none (
      ("request_id", text request_id)
      ∷ ("routing_key", text routing_key)
      ∷ ("placement_key", text placement_key)
      ∷ [])

abbrev pub body_size_log :
    (now request_id routing_key placement_key error : String) → (content_length : ℤ) → Entry
body_size_log now request_id routing_key placement_key error content_length =
    log_error now "request body too large" (some error) (
      ("request_id", text request_id)
      ∷ ("routing_key", text routing_key)
      ∷ ("placement_key", text placement_key)
      ∷ ("content_length", int content_length)
      ∷ [])

abbrev pub proxy_error_log : (now request_id routing_key error : String) → RoutingDecision → Entry
proxy_error_log now request_id routing_key error d = log_error now "proxy error" (some error) (
    ("request_id", text request_id)
    ∷ ("routing_key", text routing_key)
    ∷ ("placement_key", text d.placement_key)
    ∷ ("upstream_url", text d.endpoint_url)
    ∷ [])

-- `original_placement` is decision.PlacementKey as it stands at the call.
abbrev pub rerouted_log : (now request_id message original target_key target : String) → Entry
rerouted_log now request_id message original target_key target = log_info now message (
    ("request_id", text request_id)
    ∷ ("original_placement", text original)
    ∷ (target_key, text target)
    ∷ [])

-- What a block logs once it has changed the decision.
then_log : Verdict → (Attempt → Entry) → List Entry
then_log (go a) f = f a ∷ []
then_log refuse f = []
then_log crash f = []

-- The lines of the circuit breaker's block.
unfoldable pub circuit_logs :
    (now request_id routing_key : String)
    → Config
    → Bool
    → RoutingDecision
    → Circuit.State
    → List Entry
unfolding then_log
circuit_logs now request_id routing_key cfg true d state = []
circuit_logs now request_id routing_key cfg false d state = elim (fallback_of cfg d.placement_key) [
  | nil_pointer ↦ []
  | to target ↦ then_log (redirect cfg d target "circuit_open") (λ a.
      rerouted_log now request_id "circuit open, routing to fallback" a.decision.placement_key
        "fallback_placement" target)
  | no_fallback ↦
      log_error now "circuit breaker open, no fallback" none (
        ("request_id", text request_id)
        ∷ ("routing_key", text routing_key)
        ∷ ("placement_key", text d.placement_key)
        ∷ ("circuit_state", text (state_text state))
        ∷ [])
      ∷ []
]

-- The lines of the health check's block.
unfoldable pub health_logs : (now request_id : String) → Config → Bool → Attempt → List Entry
unfolding then_log
health_logs now request_id cfg true a = []
health_logs now request_id cfg false a = elim (fallback_of cfg a.decision.placement_key) [
  | nil_pointer ↦ []
  | to target ↦ then_log (redirect cfg a.decision target "upstream_unhealthy") (λ b.
      rerouted_log now request_id "endpoint unhealthy, routing to fallback" a.decision.placement_key
        "fallback_placement" target)
  | no_fallback ↦
      if cfg.default_placement == a.decision.placement_key
      then []
      else then_log (redirect cfg a.decision cfg.default_placement "upstream_unhealthy") (λ b.
        rerouted_log now request_id "endpoint unhealthy, routing to default"
          b.decision.placement_key "default_placement" cfg.default_placement)
]
