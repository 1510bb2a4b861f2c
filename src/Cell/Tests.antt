-- ===== src/Cell/Tests.antt =====
-- A demo cell behind a router.
use cell_routing_from_scratc.Prelude.{
  ◌≡◌, refl, true, false, ◌==◌, some, [], ◌∷◌, if◌then◌else◌, lookup, eq_iff, arith,
}
use cell_routing_from_scratc.Prelude.Int.{pos}
use cell_routing_from_scratc.Config.Samples.{sample_library}
use cell_routing_from_scratc.Routing.{RoutingDecision, dedicated}
use cell_routing_from_scratc.Http.{get, HttpRequest}
use cell_routing_from_scratc.Proxy.Forward.{
  header_request_id, header_routing_key, header_forwarded_for, header_forwarded_proto, Net,
  UpstreamRequest, upstream_request, forwarded_header,
}
use cell_routing_from_scratc.Cell.{Cell, Echo, echo, is_healthy, configure, serve}
use cell_routing_from_scratc.Cell.Echoes.{serve-echoes}

abbrev net : Net
net = record {
  split_host = λ a. if a == "10.0.0.7:51234" then "10.0.0.7" else "";
  accepts = λ method scheme host path raw_query. true;
}

abbrev client_request : HttpRequest
client_request = record {
  method = "POST";
  path = "/pay";
  raw_query = "amount=5";
  header = ("X-Routing-Key", "visa" ∷ []) ∷ ("Accept", "text/plain" ∷ []) ∷ [];
  remote_addr = "10.0.0.7:51234";
  tls = false;
  content_length = pos 0;
}

abbrev visa_decision : RoutingDecision
visa_decision = record {
  placement_key = "visa";
  reason = dedicated;
  endpoint_url = "http://cell-visa:9004";
}

abbrev forwarded : UpstreamRequest
forwarded = record {
  method = "POST";
  scheme = "http";
  host = "http://cell-visa:9004";
  path = "/pay";
  raw_query = "amount=5";
  header = forwarded_header net client_request "5f0c";
}

sends : upstream_request net sample_library client_request visa_decision "5f0c" ≡ some forwarded
unfolding upstream_request
sends = refl

-- As the cell's HTTP server reads it.
abbrev received : HttpRequest
received = record client_request { header = forwarded.header; remote_addr = "10.0.0.1:40000" }

abbrev visa_cell : Cell
visa_cell = configure (λ name. if name == "CELL_NAME" then "cell-visa" else "")

serves_health :
    (visa_cell.port ≡ "9000")
    × ((serve visa_cell (record received { path = "/health" }) "12:00").body
        ≡ is_healthy "cell-visa")
unfolding configure serve
serves_health = (refl, refl)

serve-echoes_example :
    (e : Echo) × ((serve visa_cell received "12:00").body ≡ echo e)
    × (e.cell ≡ "cell-visa")
    × (e.method ≡ "POST")
    × (e.path ≡ "/pay")
    × (e.query ≡ "amount=5")
    × (lookup header_request_id e.headers ≡ some "5f0c")
    × (lookup header_routing_key e.headers ≡ some "visa")
    × (lookup header_forwarded_proto e.headers ≡ some "http")
    × (lookup header_forwarded_for e.headers ≡ some "10.0.0.7")
unfolding lookup get configure
serve-echoes_example =
    serve-echoes net sample_library client_request visa_decision "5f0c" forwarded received visa_cell
      "12:00" (refl, (refl, tt)) sends
      (record { method = refl; path = refl; raw_query = refl; header = λ key own. refl })
      (λ e. ground (arith, eq_iff "/pay" "/health", e))
