-- ===== src/Routing.antt =====
-- internal/routing/router.go. The configuration provider is an interface; `ConfigProvider` holds what
-- its three getters answer in the course of one call of `Route`.
use cell_routing_from_scratc.Prelude.{
  String, Bool, true, false, ◌||◌, not, ◌==◌, Option, none, some, if◌then◌else◌, GoMap, lookup,
  Result, ok, err,
}
pub mod Decision
pub mod Served
mod Tests

pub record ConfigProvider : Type 0 where
  pub get_routing_table : GoMap String
  pub get_cell_endpoints : GoMap String
  pub get_default_placement : String

pub data RouteReason : Type 0 where
  dedicated tier default : RouteReason

pub record RoutingDecision : Type 0 where
  pub placement_key : String
  pub reason : RouteReason
  pub endpoint_url : String

-- "no endpoint configured for placement: %s"
pub data RouteError : Type 0 where
  no_endpoint : (placement : String) → RouteError

pub record StaticConfig : Type 0 where
  pub routing_table : GoMap String
  pub cell_endpoints : GoMap String
  pub default_placement : String

-- The getters of a StaticConfig.
unfoldable pub static_provider : StaticConfig → ConfigProvider
static_provider s = record {
  get_routing_table = s.routing_table;
  get_cell_endpoints = s.cell_endpoints;
  get_default_placement = s.default_placement;
}

unfoldable pub new_router_with_maps : GoMap String → GoMap String → String → ConfigProvider
unfolding static_provider
new_router_with_maps routing_table cell_endpoints default_placement = static_provider (record {
  routing_table = routing_table;
  cell_endpoints = cell_endpoints;
  default_placement = default_placement;
})

unfoldable pub is_tier : String → Bool
is_tier placement_key =
    placement_key == "tier1" || placement_key == "tier2" || placement_key == "tier3"

unfoldable pub is_found : Option String → Bool
is_found none = false
is_found (some placement) = true

-- `placementKey, found := routingTable[routingKey]`, replaced by the default placement.
unfoldable pub choose : Option String → String → String → String
choose none routing_key fallback = fallback
choose (some placement) routing_key fallback = if routing_key == "" then fallback else placement

unfoldable pub determine_reason : String → String → Bool → RouteReason
determine_reason routing_key placement_key found =
    if not found || routing_key == ""
    then default
    else if is_tier placement_key
    then tier
    else dedicated

unfoldable pub decide_endpoint :
    String → RouteReason → Option String → Result RouteError RoutingDecision
decide_endpoint placement_key reason none = err (no_endpoint placement_key)
decide_endpoint placement_key reason (some endpoint_url) =
    ok (record { placement_key = placement_key; reason = reason; endpoint_url = endpoint_url })

unfoldable pub route : ConfigProvider → String → Result RouteError RoutingDecision
unfolding choose is_found determine_reason decide_endpoint
route r routing_key =
    let entry = lookup routing_key r.get_routing_table in
    let placement_key = choose entry routing_key r.get_default_placement in
    let reason = determine_reason routing_key placement_key (is_found entry) in
    decide_endpoint placement_key reason (lookup placement_key r.get_cell_endpoints)
