-- ===== src/Cell/Echoes.antt =====
-- What a cell answers to a request that the router forwarded to it, and to a health check.
use cell_routing_from_scratc.Prelude.{
  IsMap, ◌≡◌, refl, ◌≢◌, String, Bool, true, false, not, ◌&&◌, ◌||◌, ◌==◌, Option, none, some, List,
  [], ◌∷◌, if◌then◌else◌, GoMap, eq_iff, eq_refl, arith, ap, subst, ◌∙◌, Bool-cases, inl, inr,
  lookup, insert, lookup-insert,
}
use cell_routing_from_scratc.Config.{Library}
use cell_routing_from_scratc.Routing.{RoutingDecision}
use cell_routing_from_scratc.Http.{Header, first_of, values, get, HttpRequest}
use cell_routing_from_scratc.Proxy.Forward.{
  header_request_id, header_routing_key, header_forwarded_for, header_forwarded_proto, Net,
  UpstreamRequest, chained, proto_of, forwarded_header, upstream_request,
}
use cell_routing_from_scratc.Proxy.Forward.Headers.{forwarded_header-values}
use cell_routing_from_scratc.Cell.{
  Cell, Echo, echo, interesting_headers, extract_each, extract_headers, echo_of, handle_root, serve,
}

abbrev pub listed : String → List String → Bool
listed key [] = false
listed key (k ∷ ks) = k == key || listed key ks

lookup-extract_each :
    (keys : List String) (h : Header) (headers : GoMap String) (key : String)
    → lookup key (extract_each keys h headers)
      ≡ (if listed key keys && not (get key h == "") then some (get key h) else lookup key headers)
unfolding extract_each
lookup-extract_each [] h headers key = refl
lookup-extract_each (k ∷ ks) h headers key =
    lookup-extract_each ks h (if get k h == "" then headers else insert k (get k h) headers) key
    ∙ elim (Bool-cases (k == key)) [
      | inl same ↦
          subst
            (λ x.
              (if listed x ks && not (get x h == "")
                then some (get x h)
                else lookup x (if get k h == "" then headers else insert k (get k h) headers))
              ≡ (if (k == x || listed x ks) && not (get x h == "")
                  then some (get x h)
                  else lookup x headers))
            ((eq_iff k key).0 same) (ground (arith, eq_refl k, lookup-insert k k (get k h) headers))
      | inr other ↦ ground (arith, other, lookup-insert k key (get k h) headers)
    ]

-- The echoed headers are the interesting ones that have a value, each with its first one.
pub lookup-extract_headers :
    (r : HttpRequest) (key : String)
    → lookup key (extract_headers r) ≡ (
        if listed key interesting_headers && not (get key r.header == "")
        then some (get key r.header)
        else none)
unfolding extract_headers
lookup-extract_headers r key =
    lookup-extract_each interesting_headers r.header [] key ∙ unfold lookup in refl

abbrev pub own_headers : List String
own_headers =
    header_request_id ∷ header_routing_key ∷ header_forwarded_for ∷ header_forwarded_proto ∷ []

-- What the HTTP client and the cell's HTTP server between them leave as it was sent.
pub record Delivers (out : UpstreamRequest) (got : HttpRequest) : Type 0 where
  pub method : got.method ≡ out.method
  pub path : got.path ≡ out.path
  pub raw_query : got.raw_query ≡ out.raw_query
  pub header :
      (key : String) → listed key own_headers ≡ true → values key got.header ≡ values key out.header

abbrev pub if_given : String → Option String
if_given value = if value == "" then none else some value

if_given-proto_of : (tls : Bool) → if_given (proto_of tls) ≡ some (proto_of tls)
if_given-proto_of true = refl
if_given-proto_of false = refl

-- What an upstream request has of the client's.
record Carries (net : Net) (r : HttpRequest) (request_id : String) (out : UpstreamRequest)
    : Type 0 where
  method : out.method ≡ r.method
  path : out.path ≡ r.path
  raw_query : out.raw_query ≡ r.raw_query
  header : out.header ≡ forwarded_header net r request_id

upstream_request-Carries :
    (net : Net) (lib : Library) (r : HttpRequest) (d : RoutingDecision) (request_id : String)
    (out : UpstreamRequest)
    → upstream_request net lib r d request_id ≡ some out
    → Carries net r request_id out
unfolding upstream_request
upstream_request-Carries net lib r d request_id out e = ground arith

module _ (net : Net) (r : HttpRequest) (request_id : String) {out : UpstreamRequest}
    {got : HttpRequest} (carried : Carries net r request_id out) (delivered : Delivers out got)
    (m : IsMap r.header) where
  -- The echo of one of the router's headers, from its values in the forwarded request.
  echoed :
      (key : String) (vs : List String)
      → listed key own_headers ≡ true
      → listed key interesting_headers ≡ true
      → values key (forwarded_header net r request_id) ≡ vs
      → lookup key (extract_headers got) ≡ if_given (first_of vs)
  unfolding get
  echoed key vs o i e =
      let g : get key got.header ≡ first_of vs =
        ap first_of (delivered.header key o ∙ ap (values key) carried.header ∙ e) in
      lookup-extract_headers got key ∙ ground (arith, i, g)

-- A cell that gets a request as the router forwarded it echoes the client's method, path and query, the
-- routing key, the router's request id and protocol, and the chain of addresses that ends in the client's;
-- an empty value is left out. The path is not the one of health checks.
pub serve-echoes :
    (net : Net) (lib : Library) (r : HttpRequest) (d : RoutingDecision) (request_id : String)
    (out : UpstreamRequest) (got : HttpRequest) (cell : Cell) (now : String)
    → IsMap r.header
    → upstream_request net lib r d request_id ≡ some out
    → Delivers out got
    → r.path ≢ "/health"
    → (e : Echo) × ((serve cell got now).body ≡ echo e)
      × (e.cell ≡ cell.cell_name)
      × (e.method ≡ r.method)
      × (e.path ≡ r.path)
      × (e.query ≡ r.raw_query)
      × (lookup header_request_id e.headers ≡ if_given request_id)
      × (lookup header_routing_key e.headers ≡ if_given (get header_routing_key r.header))
      × (lookup header_forwarded_proto e.headers ≡ some (proto_of r.tls))
      × (lookup header_forwarded_for e.headers
          ≡ if_given (chained (get header_forwarded_for r.header) (net.split_host r.remote_addr)))
unfolding serve handle_root get
serve-echoes net lib r d request_id out got cell now m sent delivered elsewhere =
    let c = upstream_request-Carries net lib r d request_id out sent in
    let there : got.path ≡ r.path = delivered.path ∙ c.path in
    let echoes = echoed net r request_id c delivered m in
    let at = λ (key : String). forwarded_header-values net r request_id key m in
    (
      echo_of cell got now,
      ground (arith, there, elsewhere, eq_iff got.path "/health"),
      refl,
      delivered.method ∙ c.method,
      there,
      delivered.raw_query ∙ c.raw_query,
      echoes header_request_id (request_id ∷ []) refl refl (at header_request_id),
      echoes header_routing_key (values header_routing_key r.header) refl refl
          (at header_routing_key),
      echoes header_forwarded_proto (proto_of r.tls ∷ []) refl refl (at header_forwarded_proto)
          ∙ if_given-proto_of r.tls,
      echoes header_forwarded_for
          (chained (get header_forwarded_for r.header) (net.split_host r.remote_addr) ∷ []) refl
          refl (at header_forwarded_for),
    )
