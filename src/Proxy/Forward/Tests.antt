-- ===== src/Proxy/Forward/Tests.antt =====
-- The upstream request, the headers of the answer and the log line at concrete inputs.
use cell_routing_from_scratc.Prelude.{ap, ◌∙◌, ◌≡◌, refl, true, some, [], ◌∷◌, lookup, arith, inr}
use cell_routing_from_scratc.Config.{Url}
use cell_routing_from_scratc.Config.Samples.{sample_library}
use cell_routing_from_scratc.Proxy.Serve.{begin, responded}
use cell_routing_from_scratc.Http.{get, values}
use cell_routing_from_scratc.Proxy.Forward.{
  upstream_request, header_failover_reason, header_forwarded_for, forwarded_header, written_header,
}
use cell_routing_from_scratc.Proxy.Forward.Target.{upstream_request-endpoint}
use cell_routing_from_scratc.Proxy.Forward.Headers.{forwarded_header-values, finish-values}
use cell_routing_from_scratc.Proxy.Serve.Told.{IsToldAlike, log_request-IsToldAlike}
use cell_routing_from_scratc.Proxy.Samples.{
  endpoints, sample_valid, handler, router, visa_flight, visa_fails_over, busy, served_well, net,
  twice_forwarded, visa_request_of,
}

-- The upstream, a router too, has set a failover reason of its own.
finish-values_example :
    values header_failover_reason (
      written_header served_well.0.1.response
        (("X-Failover-Reason", "endpoint_unhealthy" ∷ []) ∷ []))
    ≡ "circuit_open" ∷ []
unfolding lookup
finish-values_example =
    finish-values busy.handler served_well.0.0 visa_flight 200 true 20 served_well.0.1
      (("X-Failover-Reason", "endpoint_unhealthy" ∷ []) ∷ []) header_failover_reason served_well.1
      (refl, tt)

forwarded_header-values_example :
    values header_forwarded_for (forwarded_header net twice_forwarded "5f0c")
    ≡ "1.1.1.1, 10.0.0.7" ∷ []
unfolding lookup get
forwarded_header-values_example =
    forwarded_header-values net twice_forwarded "5f0c" header_forwarded_for (refl, (refl, tt))

log_request-IsToldAlike_example :
    IsToldAlike "2026-01-01T12:00:00Z" "5f0c" twice_forwarded 1500 served_well.0.1
log_request-IsToldAlike_example =
    log_request-IsToldAlike "2026-01-01T12:00:00Z" "5f0c" twice_forwarded 1500 served_well.0.1 (
      inr (
        busy.handler,
        served_well.0.0,
        visa_flight,
        responded 200 true,
        20,
        served_well.1,
        omega arith,
      ))

-- "tier3" answers for "visa".
upstream_request-endpoint_example :
    (url : Url) × (lookup "tier3" endpoints ≡ some "http://cell-tier3:9003")
    × (sample_library.parse_url "http://cell-tier3:9003" ≡ some url)
    × (upstream_request net sample_library twice_forwarded visa_flight.decision "5f0c"
        ≡ some (record {
          method = "GET";
          scheme = url.scheme;
          host = url.host;
          path = "/pay";
          raw_query = "";
          header = forwarded_header net twice_forwarded "5f0c";
        }))
upstream_request-endpoint_example =
    upstream_request-endpoint sample_library net handler sample_valid twice_forwarded "5f0c" 10
      visa_flight (ap (λ r. (begin router handler r 10).1) visa_request_of ∙ visa_fails_over)
