-- ===== src/Proxy/Startup/Intervals.antt =====
-- internal/proxy/handler.go and internal/health/checker.go: the interval of a placement's own health check,
-- from the configuration to the ticker of its goroutine.
use cell_routing_from_scratc.Prelude.{
  ℕ, ◌≡◌, refl, String, false, none, some, List, [], ◌∷◌, ◌++◌, GoMap, lookup, ok, ap, ◌∙◌,
}
use cell_routing_from_scratc.Prelude.Int.{pos, ltb_ℤ}
use cell_routing_from_scratc.Config.{
  Config, PlacementConfig, HealthCheckConfig, ParsedHealthCheckConfig, Library, get_cell_endpoints,
  get_placement_config, parse_health_check,
}
use cell_routing_from_scratc.Config.Validity.{IsValid}
use cell_routing_from_scratc.Health
use cell_routing_from_scratc.Proxy.{
  Handler, configure_health, configure_placement, configure_each, bare_handler, new_handler,
}
use cell_routing_from_scratc.Proxy.Startup.{
  new_handler-Built, last_visited, configure_limits-checker,
}

-- The checker of one placement, as configureResilienceMechanisms makes it.
abbrev pub own_checker_of : ParsedHealthCheckConfig → (key url : String) → Health.Checker
own_checker_of parsed key url =
    Health.register_endpoint
      (Health.new_checker
        (record { path = parsed.path; interval = parsed.interval; timeout = parsed.timeout }))
      key url

own_checker_of-loops :
    (parsed : ParsedHealthCheckConfig) (key url : String)
    → (own_checker_of parsed key url).loops ≡ (key, 0) ∷ []
unfolding Health.register_endpoint Health.new_checker lookup
own_checker_of-loops parsed key url = refl

own_checker_of-check_loop :
    (parsed : ParsedHealthCheckConfig) (key url : String) (checks : List (Health.CheckOutcome × ℕ))
    → ltb_ℤ (pos 0) parsed.interval ≡ false
    → Health.check_loop (own_checker_of parsed key url) 0 checks ≡ none
unfolding Health.register_endpoint Health.new_checker lookup Health.check_loop
own_checker_of-check_loop parsed key url checks bad = rw bad

module _ (lib : Library) where
  -- The loop of NewHandler ends with the checker of its last placement, if that has one of its own.
  last_checker :
      (cfg : Config) (h : Handler) (before : GoMap String) (key url : String) (p : PlacementConfig)
      (hc : HealthCheckConfig) (parsed : ParsedHealthCheckConfig)
      → new_handler lib cfg ≡ some h
      → get_cell_endpoints cfg ≡ some (before ++ (key, url) ∷ [])
      → get_placement_config cfg key ≡ some (some p)
      → p.health_check ≡ some hc
      → parse_health_check lib hc ≡ ok parsed
      → h.health_checker ≡ own_checker_of parsed key url
  unfolding configure_placement configure_health
  last_checker cfg h before key url p hc parsed built last placed own parses =
      let earlier : Handler = configure_each lib (bare_handler lib cfg) cfg before in
      ap (λ x. x.health_checker) (last_visited lib cfg h before key url p built last placed)
      ∙ configure_limits-checker lib (configure_health lib earlier key url p.health_check) key p
      ∙ ap (λ o. (configure_health lib earlier key url o).health_checker) own
      ∙ rw (parses, configure_health) refl

  -- `Validate` asks of a health check that its durations parse, and no more: under a valid configuration whose
  -- last placement, in the order of NewHandler's loop, has an interval of zero or less, NewHandler returns a
  -- handler, and the goroutine that it has started for that placement panics, whatever it would have checked.
  pub new_handler-check_loop :
      (cfg : Config) (before : GoMap String) (key url : String) (p : PlacementConfig)
      (hc : HealthCheckConfig) (parsed : ParsedHealthCheckConfig)
      (checks : List (Health.CheckOutcome × ℕ))
      → IsValid lib cfg
      → get_cell_endpoints cfg ≡ some (before ++ (key, url) ∷ [])
      → get_placement_config cfg key ≡ some (some p)
      → p.health_check ≡ some hc
      → parse_health_check lib hc ≡ ok parsed
      → ltb_ℤ (pos 0) parsed.interval ≡ false
      → (h : Handler) × (new_handler lib cfg ≡ some h)
        × (h.health_checker.loops ≡ (key, 0) ∷ [])
        × (Health.check_loop h.health_checker 0 checks ≡ none)
  new_handler-check_loop cfg before key url p hc parsed checks v last placed own parses bad =
      let (h, built, slots) = new_handler-Built lib cfg v in
      let checker = last_checker cfg h before key url p hc parsed built last placed own parses in
      (
        h,
        built,
        ap (λ c. c.loops) checker ∙ own_checker_of-loops parsed key url,
        ap (λ c. Health.check_loop c 0 checks) checker
            ∙ own_checker_of-check_loop parsed key url checks bad,
      )
