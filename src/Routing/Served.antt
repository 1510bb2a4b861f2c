-- ===== src/Routing/Served.antt =====
-- Routing with a configuration that `Validate` accepts.
use cell_routing_from_scratc.Prelude.{
  ◌≡◌, ◌≢◌, inl, inr, String, ◌==◌, none, GoMap, lookup, ok, All, lookup-All, Bool-cases,
  Option-cases, ap,
}
use cell_routing_from_scratc.Config.{Config, Library}
use cell_routing_from_scratc.Config.Validity.{Known, IsValid}
use cell_routing_from_scratc.Routing.{
  ConfigProvider, RoutingDecision, route, choose, decide_endpoint,
}
use cell_routing_from_scratc.Routing.Decision.{chosen, reason_of}

-- The provider that answers with a configuration's own getters: `endpoints` is what its
-- GetCellEndpoints returns.
abbrev pub own_provider : Config → GoMap String → ConfigProvider
own_provider c endpoints = record {
  get_routing_table = c.routing_table;
  get_cell_endpoints = endpoints;
  get_default_placement = c.default_placement;
}

-- The target of any key has an endpoint.
pub chosen-Known :
    (c : Config) (endpoints : GoMap String) (key : String)
    → Known endpoints c.default_placement
    → All (λ e. Known endpoints e.1) c.routing_table
    → Known endpoints (chosen (own_provider c endpoints) key)
unfolding choose
chosen-Known c endpoints key d r = elim (Option-cases (lookup key c.routing_table)) [
  | inl missing ↦ rw (missing, choose) d
  | inr (placement, found) ↦ elim (Bool-cases (key == "")) [
    | inl empty ↦ rw (found, choose) (rw empty d)
    | inr given ↦
        rw (found, choose)
          (rw given (lookup-All (λ e. Known endpoints e.1) key c.routing_table placement r found))
  ]
]

-- Under a valid configuration `Route` succeeds for every routing key, with an endpoint URL that parses.
pub route_total :
    (lib : Library) (c : Config) (key : String) (v : IsValid lib c)
    → (d : RoutingDecision) × (route (own_provider c v.endpoints) key ≡ ok d)
      × (lib.parse_url d.endpoint_url ≢ none)
unfolding route decide_endpoint
route_total lib c key v =
    let p = own_provider c v.endpoints in
    let (url, found) = chosen-Known c v.endpoints key v.default_known v.routes_known in
    (
      record { placement_key = chosen p key; reason = reason_of p key; endpoint_url = url },
      ap (decide_endpoint (chosen p key) (reason_of p key)) found,
      lookup-All (λ e. lib.parse_url e.1 ≢ none) (chosen p key) v.endpoints url v.urls_parse found,
    )
