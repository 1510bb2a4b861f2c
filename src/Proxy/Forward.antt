-- ===== src/Proxy/Forward.antt =====
-- internal/proxy/handler.go: the request that proxyRequest sends to the upstream, and the headers that it
-- writes to the client.
use cell_routing_from_scratc.Prelude.{
  String, ◌<>◌, Bool, ◌==◌, Option, none, some, [], if◌then◌else◌,
}
use cell_routing_from_scratc.Config.{Library}
use cell_routing_from_scratc.Routing.{RouteReason, dedicated, tier, default, RoutingDecision}
use cell_routing_from_scratc.Circuit
use cell_routing_from_scratc.Circuit.{closed, opened, half_open}
use cell_routing_from_scratc.Http.{Header, get, set_header, copy_header, HttpRequest}
use cell_routing_from_scratc.Proxy.Exchange.{Request, Response}
pub mod Headers
pub mod Target
mod Tests

abbrev pub header_routing_key : String
header_routing_key = "X-Routing-Key"

abbrev pub header_request_id : String
header_request_id = "X-Request-Id"

abbrev pub header_forwarded_for : String
header_forwarded_for = "X-Forwarded-For"

abbrev pub header_forwarded_proto : String
header_forwarded_proto = "X-Forwarded-Proto"

abbrev pub header_routed_to : String
header_routed_to = "X-Routed-To"

abbrev pub header_route_reason : String
header_route_reason = "X-Route-Reason"

abbrev pub header_failover_reason : String
header_failover_reason = "X-Failover-Reason"

abbrev pub header_circuit_state : String
header_circuit_state = "X-Circuit-State"

-- What ServeHTTP takes from the request to decide.
unfoldable pub request_of : HttpRequest → Request
request_of r = record {
  routing_key = get header_routing_key r.header;
  content_length = r.content_length;
}

-- `generated` is what generateRequestID would give.
unfoldable pub request_id_of : HttpRequest → (generated : String) → String
request_id_of r generated =
    let given = get header_request_id r.header in if given == "" then generated else given

-- The functions of the standard library that the upstream request goes through: the host of
-- net.SplitHostPort, "" on an error, and whether http.NewRequestWithContext accepts a method and a URL.
pub record Net : Type 0 where
  pub split_host : String → String
  pub accepts : (method scheme host path raw_query : String) → Bool

pub record UpstreamRequest : Type 0 where
  pub method : String
  pub scheme : String
  pub host : String
  pub path : String
  pub raw_query : String
  pub header : Header

-- X-Forwarded-For with the client's address behind what was there.
abbrev pub chained : (prior client_ip : String) → String
chained prior client_ip = if prior == "" then client_ip else prior <> ", " <> client_ip

abbrev pub proto_of : Bool → String
proto_of tls = if tls then "https" else "http"

module _ (net : Net) where
  unfoldable pub forwarded_header : HttpRequest → String → Header
  forwarded_header r request_id =
      let with_id = set_header header_request_id request_id (copy_header r.header []) in
      let with_for =
        set_header header_forwarded_for
          (chained (get header_forwarded_for with_id) (net.split_host r.remote_addr)) with_id in
      set_header header_forwarded_proto (proto_of r.tls) with_for

  -- `none` is an error of url.Parse or of http.NewRequestWithContext.
  unfoldable pub upstream_request :
      Library → HttpRequest → RoutingDecision → String → Option UpstreamRequest
  unfolding forwarded_header
  upstream_request lib r d request_id = elim (lib.parse_url d.endpoint_url) [
    | none ↦ none
    | some url ↦
        if net.accepts r.method url.scheme url.host r.path r.raw_query
        then some (record {
          method = r.method;
          scheme = url.scheme;
          host = url.host;
          path = r.path;
          raw_query = r.raw_query;
          header = forwarded_header r request_id;
        })
        else none
  ]

abbrev pub reason_text : RouteReason → String
reason_text dedicated = "dedicated"
reason_text tier = "tier"
reason_text default = "default"

abbrev pub state_text : Circuit.State → String
state_text closed = "closed"
state_text opened = "open"
state_text half_open = "half_open"

-- A header that is set only where there is something to set.
unfoldable pub set_some : String → Option String → Header → Header
set_some key none h = h
set_some key (some value) h = set_header key value h

abbrev pub text_of {ℓ} : {A : Type ℓ} → (A → String) → Option A → Option String
text_of f none = none
text_of f (some a) = some (f a)

-- The upstream's headers, and the router's own set over them.
unfoldable pub written_header : Response → Header → Header
unfolding set_some
written_header response upstream =
    let routed = set_some header_routed_to response.routed_to (copy_header upstream []) in
    let reasoned =
      set_some header_route_reason (text_of reason_text response.route_reason) routed in
    let failed_over = set_some header_failover_reason response.failover_reason reasoned in
    set_some header_circuit_state (text_of state_text response.circuit_state) failed_over
