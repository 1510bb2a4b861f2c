-- ===== src/Proxy.antt =====
-- internal/proxy/handler.go: the handler and the start-up that builds it from a configuration. The
-- request path is in Proxy.Serve.
use cell_routing_from_scratc.Prelude.{
  String, ◌||◌, Option, none, some, List, [], ◌∷◌, if◌then◌else◌, GoMap, ok, err, panic,
}
use cell_routing_from_scratc.Prelude.Int.{pos, ltb_ℤ}
use cell_routing_from_scratc.Config.{
  Config, PlacementConfig, HealthCheckConfig, Library, get_cell_endpoints, get_placement_config,
  parse_health_check,
}
use cell_routing_from_scratc.Circuit
use cell_routing_from_scratc.Health
use cell_routing_from_scratc.Limits
pub mod Exchange
pub mod Rerouting
pub mod Serve
pub mod Configured
pub mod Checkers
pub mod Startup
pub mod Forward
pub mod Logs
pub mod Samples

-- `retired` holds the checkers that a later one has replaced; their goroutines go on, but the handler no
-- longer reads or stops them.
pub record Handler : Type 0 where
  pub config : Config
  pub health_checker : Health.Checker
  pub retired : List Health.Checker
  pub circuit_manager : Circuit.Manager
  pub limits_manager : Limits.Manager

abbrev pub default_checks : Health.CheckConfig
default_checks = record { path = "/health"; interval = pos 10000000000; timeout = pos 2000000000 }

abbrev pub default_circuit : Circuit.Config
default_circuit = record { failure_threshold = 5; timeout = 30000000000 }

register_default : Handler → String → String → Handler
register_default h key url = record h {
  health_checker = Health.register_endpoint h.health_checker key url;
}

-- A health check whose durations do not parse is passed over.
module _ (lib : Library) where
  configure_health : Handler → String → String → Option HealthCheckConfig → Handler
  unfolding register_default
  configure_health h key url none = register_default h key url
  configure_health h key url (some hc) = elim (parse_health_check lib hc) [
    | ok parsed ↦ record h {
      health_checker =
          Health.register_endpoint
            (Health.new_checker
              (record { path = parsed.path; interval = parsed.interval; timeout = parsed.timeout }))
            key url;
      retired = h.health_checker ∷ h.retired;
    }
    | err e ↦ h
    | panic ↦ h
  ]

  configure_limits : Handler → String → PlacementConfig → Handler
  configure_limits h key p =
      if ltb_ℤ (pos 0) p.concurrency_limit || ltb_ℤ (pos 0) p.max_request_body_bytes
      then record h {
        limits_manager = Limits.set_config h.limits_manager key (record {
          max_concurrent_requests = p.concurrency_limit;
          max_request_body_bytes = p.max_request_body_bytes;
        });
      }
      else h

  -- The body of the loop, with what GetPlacementConfig found.
  configure_placement : Handler → String → String → Option (Option PlacementConfig) → Handler
  unfolding configure_health configure_limits register_default
  configure_placement h key url none = register_default h key url
  configure_placement h key url (some none) = register_default h key url
  configure_placement h key url (some (some p)) =
      configure_limits (configure_health h key url p.health_check) key p

  configure_each : Handler → Config → GoMap String → Handler
  unfolding configure_placement
  configure_each h cfg [] = h
  configure_each h cfg ((key, url) ∷ rest) =
      configure_each (configure_placement h key url (get_placement_config cfg key)) cfg rest

  configure_endpoints : Handler → Config → Option (GoMap String) → Option Handler
  unfolding configure_each
  configure_endpoints h cfg none = none
  configure_endpoints h cfg (some endpoints) = some (configure_each h cfg endpoints)

  -- `none` is the panic of GetCellEndpoints.
  unfoldable pub configure_resilience_mechanisms : Handler → Config → Option Handler
  unfolding configure_endpoints
  configure_resilience_mechanisms h cfg = configure_endpoints h cfg (get_cell_endpoints cfg)

  unfoldable pub bare_handler : Config → Handler
  bare_handler cfg = record {
    config = cfg;
    health_checker = Health.new_checker default_checks;
    retired = [];
    circuit_manager = Circuit.new_manager default_circuit;
    limits_manager = Limits.new_manager;
  }

  unfoldable pub new_handler : Config → Option Handler
  unfolding configure_resilience_mechanisms bare_handler
  new_handler cfg = configure_resilience_mechanisms (bare_handler cfg) cfg

-- `Stop` stops the current checker alone; closing its channel twice panics, `none`.
unfoldable pub stop : Handler → Option Handler
stop h = elim (Health.stop h.health_checker) [
  | none ↦ none
  | some checker ↦ some (record h { health_checker = checker })
]
