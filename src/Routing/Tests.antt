-- ===== src/Routing/Tests.antt =====
-- `Route` on the sample configuration, and the theorems at concrete inputs.
use cell_routing_from_scratc.Prelude.{◌≡◌, refl, ◌↔◌, some, [], lookup, ok, err}
use cell_routing_from_scratc.Config.{validate}
use cell_routing_from_scratc.Config.Samples.{sample_library, legacy_sample, placements_sample}
use cell_routing_from_scratc.Config.Validity.{IsValid, validate-IsValid_iff}
use cell_routing_from_scratc.Routing.{
  ConfigProvider, dedicated, tier, default, RoutingDecision, no_endpoint, new_router_with_maps,
  route, is_tier,
}
use cell_routing_from_scratc.Routing.Decision.{IsTarget, route-IsTarget_iff}

abbrev router : ConfigProvider
router = record {
  get_routing_table = legacy_sample.routing_table;
  get_cell_endpoints = legacy_sample.cell_endpoints;
  get_default_placement = legacy_sample.default_placement;
}

abbrev acme : RoutingDecision
acme = record { placement_key = "tier1"; reason = tier; endpoint_url = "http://cell-tier1:9001" }

routes :
    (route router "acme" ≡ ok acme)
    × (route router "visa"
        ≡ ok (record {
          placement_key = "visa";
          reason = dedicated;
          endpoint_url = "http://cell-visa:9004";
        }))
    × (route router "other"
        ≡ ok (record {
          placement_key = "tier3";
          reason = default;
          endpoint_url = "http://cell-tier3:9003";
        }))
    × (route (record router { get_cell_endpoints = [] }) "acme" ≡ err (no_endpoint "tier1"))
    × (new_router_with_maps router.get_routing_table router.get_cell_endpoints "tier3" ≡ router)
unfolding route lookup is_tier new_router_with_maps
routes = (refl, refl, refl, refl, refl)

route-IsTarget_iff_example : (route router "acme" ≡ ok acme) ↔ (
    IsTarget router "acme" "tier1" tier
    × (lookup "tier1" router.get_cell_endpoints ≡ some "http://cell-tier1:9001"))
route-IsTarget_iff_example = route-IsTarget_iff router "acme" acme

placements_sample_valid : IsValid sample_library placements_sample
unfolding validate lookup
placements_sample_valid = (validate-IsValid_iff sample_library placements_sample).0 refl
