-- ===== src/Loader/Unroutable.antt =====
-- internal/config/loader.go: routing through the loader, over several configurations. The loader hands the router the
-- legacy cellEndpoints field as it stands, not what Config.GetCellEndpoints would return.
use cell_routing_from_scratc.Prelude.{
  ◌≡◌, refl, ◌≢◌, String, none, some, [], lookup, ok, err, arith, subst, eq_iff, ℕ,
}
use cell_routing_from_scratc.Config.{Config, Library, get_cell_endpoints}
use cell_routing_from_scratc.Config.Validity.{IsValid}
use cell_routing_from_scratc.Routing.{RoutingDecision, no_endpoint, route, decide_endpoint, choose}
use cell_routing_from_scratc.Routing.Decision.{chosen}
use cell_routing_from_scratc.Routing.Served.{own_provider, route_total}
use cell_routing_from_scratc.Loader.{
  Loader, provider, apply_config, get_config, get_config_source, control_plane,
}

-- A legacy configuration that is valid is served: every routing key has a decision.
pub legacy_served :
    (lib : Library) (c : Config) (key : String)
    → IsValid lib c
    → c.cell_endpoints ≢ []
    → (d : RoutingDecision) × (route (provider c c c) key ≡ ok d)
unfolding provider get_cell_endpoints
legacy_served lib c key v legacy =
    let same : v.endpoints ≡ c.cell_endpoints = ground (arith, v.served) in
    let (d, found, parsed) = route_total lib c key v in
    (d, subst (λ endpoints. route (own_provider c endpoints) key ≡ ok d) same found)

-- Under a configuration in the new format, which has placements and no cellEndpoints, no routing key
-- can be routed through the loader.
pub placements_unroutable :
    (c : Config) (key : String)
    → c.cell_endpoints ≡ []
    → route (provider c c c) key ≡ err (no_endpoint (chosen (provider c c c) key))
unfolding provider route decide_endpoint lookup
placements_unroutable c key new = rw (new, lookup)

-- `Route` loads the configuration once for the table and again for the endpoints. If it is swapped in
-- between, a key whose placement is not among the new endpoints fails.
pub torn_route_fails :
    (before after : Config) (key placement : String)
    → key ≢ ""
    → lookup key before.routing_table ≡ some placement
    → lookup placement after.cell_endpoints ≡ none
    → route (provider before after after) key ≡ err (no_endpoint placement)
unfolding provider route decide_endpoint choose
torn_route_fails before after key placement given found gone =
    ground (arith, eq_iff key "", found, gone)

-- The control plane's configuration replaces the active one at once, whether `Validate` would accept it
-- or not: one whose default placement has no endpoint then fails every key that is not in its table.
pub apply_config_unchecked :
    (l : Loader) (c : Config) (key : String) (now : ℕ)
    → lookup c.default_placement c.cell_endpoints ≡ none
    → lookup key c.routing_table ≡ none
    → (get_config (apply_config l c now) ≡ some c)
      × (get_config_source (apply_config l c now) ≡ control_plane)
      × (route (provider c c c) key ≡ err (no_endpoint c.default_placement))
unfolding apply_config get_config get_config_source provider route decide_endpoint choose
apply_config_unchecked l c key now gone unknown = (refl, refl, ground (arith, gone, unknown))
