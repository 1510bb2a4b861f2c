-- ===== src/Proxy/Rerouting.antt =====
-- internal/proxy/handler.go: the two blocks of ServeHTTP that replace the router's decision, for an open
-- circuit and for an unhealthy upstream.
use cell_routing_from_scratc.Prelude.{
  String, Bool, true, false, ◌==◌, Option, none, some, if◌then◌else◌, GoMap, lookup,
}
use cell_routing_from_scratc.Config.{
  Config, PlacementConfig, get_cell_endpoints, get_placement_config,
}
use cell_routing_from_scratc.Routing.{RoutingDecision}
use cell_routing_from_scratc.Circuit
use cell_routing_from_scratc.Health
use cell_routing_from_scratc.Limits
pub mod Hops
pub mod Gone

-- `placementCfg, hasFallback := …; hasFallback && placementCfg.Fallback != ""`
pub data Fallback : Type 0 where
  no_fallback : Fallback
  to : String → Fallback
  nil_pointer : Fallback

fallback_in : Option (Option PlacementConfig) → Fallback
fallback_in none = no_fallback
fallback_in (some none) = nil_pointer
fallback_in (some (some p)) = if p.fallback == "" then no_fallback else to p.fallback

unfoldable pub fallback_of : Config → String → Fallback
unfolding fallback_in
fallback_of cfg placement = fallback_in (get_placement_config cfg placement)

-- The decision and the failover reason as the failover code leaves them.
pub record Attempt : Type 0 where
  pub decision : RoutingDecision
  pub failover_reason : String

pub data Verdict : Type 0 where
  go : Attempt → Verdict
  refuse : Verdict
  crash : Verdict

-- A key that is not in the map gives "".
abbrev pub url_at : String → GoMap String → String
url_at key m = elim (lookup key m) [ none ↦ "" | some url ↦ url ]

unfoldable pub redirect : Config → RoutingDecision → String → String → Verdict
redirect cfg d target why = elim (get_cell_endpoints cfg) [
  | none ↦ crash
  | some endpoints ↦ go (record {
    decision = record d { placement_key = target; endpoint_url = url_at target endpoints };
    failover_reason = why;
  })
]

-- The circuit breaker's block: `allowed` is the answer of `Allow`.
unfoldable pub after_circuit : Config → Bool → RoutingDecision → Verdict
unfolding redirect
after_circuit cfg true d = go (record { decision = d; failover_reason = "" })
after_circuit cfg false d = elim (fallback_of cfg d.placement_key) [
  | no_fallback ↦ refuse
  | to target ↦ redirect cfg d target "circuit_open"
  | nil_pointer ↦ crash
]

-- The health check's block, for the placement as it stands by then.
unfoldable pub after_health : Config → Bool → Attempt → Verdict
unfolding redirect
after_health cfg true a = go a
after_health cfg false a = elim (fallback_of cfg a.decision.placement_key) [
  | to target ↦ redirect cfg a.decision target "upstream_unhealthy"
  | nil_pointer ↦ crash
  | no_fallback ↦
      if cfg.default_placement == a.decision.placement_key
      then go a
      else redirect cfg a.decision cfg.default_placement "upstream_unhealthy"
]

-- The two blocks in a row; `healthy` is the health checker's answer.
unfoldable pub failover : Config → (String → Bool) → Bool → RoutingDecision → Verdict
failover cfg healthy allowed d = elim (after_circuit cfg allowed d) [
  | go a ↦ after_health cfg (healthy a.decision.placement_key) a
  | refuse ↦ refuse
  | crash ↦ crash
]
