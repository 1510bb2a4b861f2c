-- ===== src/Proxy/Startup/Tests.antt =====
-- A placement whose health check has an interval of zero.
use cell_routing_from_scratc.Prelude.{
  ◌≡◌, refl, String, ◌==◌, Option, none, some, [], ◌∷◌, if◌then◌else◌, lookup, ok,
}
use cell_routing_from_scratc.Prelude.Int.{ℤ, pos}
use cell_routing_from_scratc.Config.{
  Config, PlacementConfig, HealthCheckConfig, Library, validate, get_cell_endpoints,
  get_placement_config, parse_health_check,
}
use cell_routing_from_scratc.Config.Samples.{
  sample_library, tier3_placement, visa_placement, placements_sample,
}
use cell_routing_from_scratc.Config.Validity.{IsValid, validate-IsValid_iff}
use cell_routing_from_scratc.Health
use cell_routing_from_scratc.Proxy.{Handler, new_handler}
use cell_routing_from_scratc.Proxy.Startup.Intervals.{new_handler-check_loop}

abbrev durations : String → Option ℤ
durations s = if s == "0s" then some (pos 0) else sample_library.parse_duration s

abbrev library : Library
library = record sample_library { parse_duration = durations }

abbrev never : HealthCheckConfig
never = record { path = "/health"; interval = "0s"; timeout = "2s" }

abbrev visa_never : PlacementConfig
visa_never = record visa_placement { health_check = some never }

abbrev zero_interval : Config
zero_interval = record placements_sample {
  placements = ("tier3", some tier3_placement) ∷ ("visa", some visa_never) ∷ [];
}

zero_interval-IsValid : IsValid library zero_interval
unfolding validate lookup
zero_interval-IsValid = (validate-IsValid_iff library zero_interval).0 refl

read :
    (get_cell_endpoints zero_interval
      ≡ some (("tier3", "http://cell-tier3:9003") ∷ ("visa", "http://cell-visa:9004") ∷ []))
    × (get_placement_config zero_interval "visa" ≡ some (some visa_never))
    × (parse_health_check library never
        ≡ ok (record { path = "/health"; interval = pos 0; timeout = pos 2000000000 }))
unfolding get_cell_endpoints get_placement_config lookup parse_health_check
read = (refl, refl, refl)

new_handler-check_loop_example :
    (h : Handler) × (new_handler library zero_interval ≡ some h)
    × (h.health_checker.loops ≡ ("visa", 0) ∷ [])
    × (Health.check_loop h.health_checker 0 ((Health.responded 200, 9) ∷ []) ≡ none)
new_handler-check_loop_example =
    new_handler-check_loop library zero_interval (("tier3", "http://cell-tier3:9003") ∷ []) "visa"
      "http://cell-visa:9004" visa_never never
      (record { path = "/health"; interval = pos 0; timeout = pos 2000000000 })
      ((Health.responded 200, 9) ∷ []) zero_interval-IsValid read.0 read.1 refl read.2 refl
