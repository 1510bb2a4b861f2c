-- ===== src/Config.antt =====
-- internal/config/config.go. A pointer that may be nil is an `Option`; a nil map and an empty one
-- behave alike here, so both are the empty list. `int`, `int64` and time.Duration are integers.
use cell_routing_from_scratc.Prelude.{
  ◌>>=◌, ◌>>◌, ℕ, String, Bool, true, false, not, ◌||◌, ◌==◌, Option, none, some, List, [], ◌∷◌,
  GoMap, lookup, Result, ok, err, panic, require, deref, or_fail,
}
use cell_routing_from_scratc.Prelude.Int.{ℤ, to_uint32}
pub mod Validity
pub mod Order
pub mod Samples
mod Tests

pub record HealthCheckConfig : Type 0 where
  pub path : String
  pub interval : String
  pub timeout : String

pub record ParsedHealthCheckConfig : Type 0 where
  pub path : String
  pub interval : ℤ
  pub timeout : ℤ

pub record CircuitBreakerConfig : Type 0 where
  pub failure_threshold : ℤ
  pub timeout : String

pub record ParsedCircuitBreakerConfig : Type 0 where
  pub failure_threshold : ℕ  -- uint32
  pub timeout : ℤ

pub record PlacementConfig : Type 0 where
  pub url : String
  pub fallback : String
  pub health_check : Option HealthCheckConfig
  pub circuit_breaker : Option CircuitBreakerConfig
  pub concurrency_limit : ℤ
  pub max_request_body_bytes : ℤ

pub record Config : Type 0 where
  pub version : String
  pub routing_table : GoMap String
  pub cell_endpoints : GoMap String
  pub placements : GoMap (Option PlacementConfig)
  pub default_placement : String

-- net/url's URL, as far as the source reads it.
pub record Url : Type 0 where
  pub scheme : String
  pub host : String

-- The functions of Go's standard library that the configuration goes through: time.ParseDuration,
-- url.Parse, json.Unmarshal into a Config, and the hexadecimal SHA-256 of a file's bytes. `none` is an
-- error.
pub record Library : Type 0 where
  pub parse_duration : String → Option ℤ
  pub parse_url : String → Option Url
  pub unmarshal_config : List ℕ → Option Config
  pub sha256_hex : List ℕ → String

pub data ParseError : Type 0 where
  bad_interval bad_timeout : ParseError

pub data ConfigError : Type 0 where
  no_version : ConfigError
  unknown_default : (placement : String) → ConfigError
  unknown_placement : (routing_key placement : String) → ConfigError
  invalid_url : (placement : String) → ConfigError
  unknown_fallback : (placement fallback : String) → ConfigError
  bad_health_check : (placement : String) → ParseError → ConfigError
  bad_circuit_breaker : (placement : String) → ParseError → ConfigError

unfoldable pub get_version : Config → String
get_version c = c.version

unfoldable pub get_routing_table : Config → GoMap String
get_routing_table c = c.routing_table

-- The loop that collects the URLs; `none` is the panic at a nil placement.
urls : GoMap (Option PlacementConfig) → Option (GoMap String)
urls [] = some []
urls ((key, none) ∷ rest) = none
urls ((key, some placement) ∷ rest) = elim (urls rest) [
  | none ↦ none
  | some endpoints ↦ some ((key, placement.url) ∷ endpoints)
]

endpoints_of : GoMap String → GoMap (Option PlacementConfig) → Option (GoMap String)
unfolding urls
endpoints_of [] placements = urls placements
endpoints_of (e ∷ es) placements = some (e ∷ es)

unfoldable pub get_cell_endpoints : Config → Option (GoMap String)
unfolding endpoints_of
get_cell_endpoints c = endpoints_of c.cell_endpoints c.placements

unfoldable pub get_default_placement : Config → String
get_default_placement c = c.default_placement

-- `none` is "not there", `some none` a nil pointer that is there.
unfoldable pub get_placement_config : Config → String → Option (Option PlacementConfig)
get_placement_config c placement_key = lookup placement_key c.placements

abbrev pub has {ℓ} : {V : Type ℓ} → String → GoMap V → Bool
has key m = elim (lookup key m) [ none ↦ false | some _ ↦ true ]

module _ (lib : Library) where
  unfoldable pub parse_health_check : HealthCheckConfig → Result ParseError ParsedHealthCheckConfig
  parse_health_check h = do
    interval ← or_fail (lib.parse_duration h.interval) bad_interval
    timeout ← or_fail (lib.parse_duration h.timeout) bad_timeout
    ok (record { path = h.path; interval = interval; timeout = timeout })

  unfoldable pub parse_circuit_breaker :
      CircuitBreakerConfig → Result ParseError ParsedCircuitBreakerConfig
  unfolding to_uint32
  parse_circuit_breaker c = do
    timeout ← or_fail (lib.parse_duration c.timeout) bad_timeout
    ok (record { failure_threshold = to_uint32 c.failure_threshold; timeout = timeout })

  -- The checks of `Validate`, one for each loop.
  check_routes : GoMap String → GoMap String → Result ConfigError (Unit {0})
  check_routes endpoints [] = ok tt
  check_routes endpoints ((routing_key, placement) ∷ rest) = do
    require (has placement endpoints) (unknown_placement routing_key placement)
    check_routes endpoints rest

  check_urls : GoMap String → Result ConfigError (Unit {0})
  check_urls [] = ok tt
  check_urls ((placement, url) ∷ rest) = do
    u ← or_fail (lib.parse_url url) (invalid_url placement)
    check_urls rest

  check_health : String → Option HealthCheckConfig → Result ConfigError (Unit {0})
  unfolding parse_health_check
  check_health key none = ok tt
  check_health key (some h) = elim (parse_health_check h) [
    | ok parsed ↦ ok tt
    | err e ↦ err (bad_health_check key e)
    | panic ↦ panic
  ]

  check_breaker : String → Option CircuitBreakerConfig → Result ConfigError (Unit {0})
  unfolding parse_circuit_breaker
  check_breaker key none = ok tt
  check_breaker key (some c) = elim (parse_circuit_breaker c) [
    | ok parsed ↦ ok tt
    | err e ↦ err (bad_circuit_breaker key e)
    | panic ↦ panic
  ]

  check_placement : GoMap String → String → Option PlacementConfig → Result ConfigError (Unit {0})
  unfolding check_health check_breaker
  check_placement endpoints key none = panic
  check_placement endpoints key (some p) = do
    require (p.fallback == "" || has p.fallback endpoints) (unknown_fallback key p.fallback)
    check_health key p.health_check
    check_breaker key p.circuit_breaker

  check_placements : GoMap String → GoMap (Option PlacementConfig) → Result ConfigError (Unit {0})
  unfolding check_placement
  check_placements endpoints [] = ok tt
  check_placements endpoints ((key, placement) ∷ rest) = do
    check_placement endpoints key placement
    check_placements endpoints rest

  unfoldable pub validate : Config → Result ConfigError (Unit {0})
  unfolding get_cell_endpoints check_routes check_urls check_placements
  validate c = do
    require (not (c.version == "")) no_version
    endpoints ← deref (get_cell_endpoints c)
    require (has c.default_placement endpoints) (unknown_default c.default_placement)
    check_routes endpoints c.routing_table
    check_urls endpoints
    check_placements endpoints c.placements
