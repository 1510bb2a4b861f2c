-- ===== src/Proxy/Forward/Target.antt =====
-- Where a forwarded request goes.
use cell_routing_from_scratc.Prelude.{
  ℕ, ◌≡◌, refl, ◌≢◌, inl, inr, String, Bool, none, some, if◌then◌else◌, lookup, lookup-All, ok,
  arith, subst, Option-cases,
}
use cell_routing_from_scratc.Config.{Config, Library, Url}
use cell_routing_from_scratc.Config.Validity.{IsValid}
use cell_routing_from_scratc.Routing.{ConfigProvider, RoutingDecision, route, decide_endpoint}
use cell_routing_from_scratc.Routing.Decision.{chosen, reason_of}
use cell_routing_from_scratc.Routing.Served.{own_provider}
use cell_routing_from_scratc.Health
use cell_routing_from_scratc.Http.{HttpRequest}
use cell_routing_from_scratc.Proxy.{Handler}
use cell_routing_from_scratc.Proxy.Exchange.{Flight, forwards}
use cell_routing_from_scratc.Proxy.Rerouting.{Attempt, go, failover}
use cell_routing_from_scratc.Proxy.Rerouting.Hops.{Serves, failover_lem}
use cell_routing_from_scratc.Proxy.Serve.{begin}
use cell_routing_from_scratc.Proxy.Serve.Outcome.{allows_at, begin-Passed}
use cell_routing_from_scratc.Proxy.Forward.{request_of, Net, forwarded_header, upstream_request}

-- A decision names the endpoint that the provider has for its placement.
route-endpoint :
    (r : ConfigProvider) (key : String) (d : RoutingDecision)
    → route r key ≡ ok d
    → lookup d.placement_key r.get_cell_endpoints ≡ some d.endpoint_url
unfolding route decide_endpoint
route-endpoint r key d e = elim (Option-cases (lookup (chosen r key) r.get_cell_endpoints)) [
  | inl missing ↦ absurd (ground (arith, missing, e))
  | inr (url, found) ↦
      let same : d
          ≡ record { placement_key = chosen r key; reason = reason_of r key; endpoint_url = url } =
        ground (arith, found, e) in
      rw same found
]

-- What the handler fails over to under a valid configuration has its endpoint there.
failover-Serves :
    (lib : Library) (c : Config) (v : IsValid lib c) (healthy : String → Bool) (allowed : Bool)
    (d : RoutingDecision) (a : Attempt)
    → Serves lib c v d
    → failover c healthy allowed d ≡ go a
    → Serves lib c v a.decision
failover-Serves lib c v healthy allowed d a s e = elim (failover_lem lib c v healthy allowed d s) [
  | inl (refused, _, _) ↦ absurd (ground (arith, refused, e))
  | inr (a', over, _, serves) ↦
      let same : a'.decision ≡ a.decision = ground (arith, over, e) in
      subst (Serves lib c v) same serves
]

-- Under a valid configuration, which the router reads too, a forwarded request goes to the endpoint that the
-- configuration has for its final placement: that URL parses, the upstream request has its scheme and
-- host, the client's method, path and query, and the forwarded header; only
-- http.NewRequestWithContext can still refuse it.
pub upstream_request-endpoint :
    (lib : Library) (net : Net) (h : Handler) (v : IsValid lib h.config) (req : HttpRequest)
    (request_id : String) (now : ℕ) (f : Flight)
    → (begin (own_provider h.config v.endpoints) h (request_of req) now).1 ≡ forwards f
    → (url : Url) × (lookup f.decision.placement_key v.endpoints ≡ some f.decision.endpoint_url)
      × (lib.parse_url f.decision.endpoint_url ≡ some url)
      × (upstream_request net lib req f.decision request_id ≡ (
          if net.accepts req.method url.scheme url.host req.path req.raw_query
          then some (record {
            method = req.method;
            scheme = url.scheme;
            host = url.host;
            path = req.path;
            raw_query = req.raw_query;
            header = forwarded_header net req request_id;
          })
          else none))
unfolding upstream_request
upstream_request-endpoint lib net h v req request_id now f e =
    let p = begin-Passed (own_provider h.config v.endpoints) h (request_of req) now f e in
    let at_start : Serves lib h.config v p.d = route-endpoint _ _ p.d p.routed in
    let at_end : Serves lib h.config v f.decision =
      failover-Serves lib h.config v (Health.is_healthy h.health_checker)
        (allows_at h p.d.placement_key now) p.d _ at_start p.failed_over in
    let parses =
      lookup-All (λ x. lib.parse_url x.1 ≢ none) f.decision.placement_key v.endpoints
        f.decision.endpoint_url v.urls_parse at_end in
    elim (Option-cases (lib.parse_url f.decision.endpoint_url)) [
      | inl bad ↦ absurd (parses bad)
      | inr (url, parsed) ↦ (url, at_end, parsed, rw (parsed, upstream_request) refl)
    ]
