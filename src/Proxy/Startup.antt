-- ===== src/Proxy/Startup.antt =====
-- What NewHandler builds from a configuration.
use cell_routing_from_scratc.Prelude.{
  ℕ, ◌≡◌, refl, ◌≢◌, inl, inr, String, true, Option, none, some, List, [], ◌∷◌, ◌++◌, ◌||◌, GoMap,
  lookup, ok, ap, sym, subst, ◌∙◌, Bool-cases, Result-cases,
}
use cell_routing_from_scratc.Prelude.Int.{pos, ltb_ℤ}
use cell_routing_from_scratc.Config.{
  Config, PlacementConfig, HealthCheckConfig, ParsedHealthCheckConfig, Library, get_cell_endpoints,
  get_placement_config, parse_health_check,
}
use cell_routing_from_scratc.Config.Validity.{IsValid}
use cell_routing_from_scratc.Health
use cell_routing_from_scratc.Health.Checks.{after_checks, unknown-after_checks, registered_alone}
use cell_routing_from_scratc.Limits.Slots.{Built, fresh, configured}
use cell_routing_from_scratc.Proxy.{
  Handler, register_default, configure_health, configure_limits, configure_placement,
  configure_each, configure_endpoints, configure_resilience_mechanisms, bare_handler, new_handler,
}
pub mod Intervals
mod Tests

module _ (lib : Library) where
  configure_health-limits :
      (h : Handler) (key url : String) (hc : Option HealthCheckConfig)
      → (configure_health lib h key url hc).limits_manager ≡ h.limits_manager
  unfolding configure_health register_default
  configure_health-limits h key url none = refl
  configure_health-limits h key url (some hc) = elim (Result-cases (parse_health_check lib hc)) [
    | inl (parsed, e) ↦ rw (e, configure_health)
    | inr (inl (x, e)) ↦ rw (e, configure_health)
    | inr (inr e) ↦ rw (e, configure_health)
  ]

  configure_limits-Built :
      (h : Handler) (key : String) (p : PlacementConfig)
      → Built h.limits_manager
      → Built (configure_limits lib h key p).limits_manager
  unfolding configure_limits
  configure_limits-Built h key p b =
      elim (Bool-cases
        (ltb_ℤ (pos 0) p.concurrency_limit || ltb_ℤ (pos 0) p.max_request_body_bytes)) [
          | inl limited ↦ rw (limited, configure_limits) (configured key _ b)
          | inr unlimited ↦ rw (unlimited, configure_limits) b
        ]

  configure_placement-Built :
      (h : Handler) (key url : String) (p : Option (Option PlacementConfig))
      → Built h.limits_manager
      → Built (configure_placement lib h key url p).limits_manager
  unfolding configure_placement register_default
  configure_placement-Built h key url none b = b
  configure_placement-Built h key url (some none) b = b
  configure_placement-Built h key url (some (some p)) b =
      configure_limits-Built (configure_health lib h key url p.health_check) key p
        (subst Built (sym (configure_health-limits h key url p.health_check)) b)

  configure_each-Built :
      (h : Handler) (cfg : Config) (endpoints : GoMap String)
      → Built h.limits_manager
      → Built (configure_each lib h cfg endpoints).limits_manager
  unfolding configure_each
  configure_each-Built h cfg [] b = b
  configure_each-Built h cfg ((key, url) ∷ rest) b =
      configure_each-Built (configure_placement lib h key url (get_placement_config cfg key)) cfg
        rest (configure_placement-Built h key url (get_placement_config cfg key) b)

  -- From a valid configuration NewHandler builds a handler without panicking, and leaves its limits as
  -- start-up code does: no slot is taken.
  pub new_handler-Built :
      (cfg : Config)
      → IsValid lib cfg
      → (h : Handler) × (new_handler lib cfg ≡ some h) × Built h.limits_manager
  unfolding new_handler configure_resilience_mechanisms configure_endpoints bare_handler
  new_handler-Built cfg v = (
    configure_each lib (bare_handler lib cfg) cfg v.endpoints,
    rw v.served,
    configure_each-Built (bare_handler lib cfg) cfg v.endpoints fresh,
  )

  configure_each-append :
      (h : Handler) (cfg : Config) (xs ys : GoMap String)
      → configure_each lib h cfg (xs ++ ys)
        ≡ configure_each lib (configure_each lib h cfg xs) cfg ys
  unfolding configure_each
  configure_each-append h cfg [] ys = refl
  configure_each-append h cfg ((key, url) ∷ xs) ys =
      configure_each-append (configure_placement lib h key url (get_placement_config cfg key)) cfg
        xs ys

  configure_limits-checker :
      (h : Handler) (key : String) (p : PlacementConfig)
      → (configure_limits lib h key p).health_checker ≡ h.health_checker
  unfolding configure_limits
  configure_limits-checker h key p =
      elim (Bool-cases
        (ltb_ℤ (pos 0) p.concurrency_limit || ltb_ℤ (pos 0) p.max_request_body_bytes)) [
          | inl limited ↦ rw (limited, configure_limits)
          | inr unlimited ↦ rw (unlimited, configure_limits)
        ]

  own_checker :
      (h : Handler) (key url other : String) (hc : HealthCheckConfig)
      (parsed : ParsedHealthCheckConfig)
      → parse_health_check lib hc ≡ ok parsed
      → key ≢ other
      → lookup other (configure_health lib h key url (some hc)).health_checker.endpoints ≡ none
  unfolding configure_health
  own_checker h key url other hc parsed parses n =
      rw (parses, configure_health) (registered_alone _ key url other n)

  -- A placement with a health check of its own starts a checker that knows that placement alone.
  replaced_checker :
      (h : Handler) (key url other : String) (p : PlacementConfig) (hc : HealthCheckConfig)
      (parsed : ParsedHealthCheckConfig)
      → p.health_check ≡ some hc
      → parse_health_check lib hc ≡ ok parsed
      → key ≢ other
      → lookup other (configure_placement lib h key url (some (some p))).health_checker.endpoints
        ≡ none
  unfolding configure_placement
  replaced_checker h key url other p hc parsed own parses n =
      ap (λ c. lookup other c.endpoints)
        (configure_limits-checker (configure_health lib h key url p.health_check) key p)
      ∙ ap (λ o. lookup other (configure_health lib h key url o).health_checker.endpoints) own
      ∙ own_checker h key url other hc parsed parses n

  -- The handler is as the last step of NewHandler's loop leaves it.
  last_visited :
      (cfg : Config) (h : Handler) (before : GoMap String) (key url : String) (p : PlacementConfig)
      → new_handler lib cfg ≡ some h
      → get_cell_endpoints cfg ≡ some (before ++ (key, url) ∷ [])
      → get_placement_config cfg key ≡ some (some p)
      → h
        ≡ configure_placement lib
            (configure_each lib (bare_handler lib cfg) cfg before)
            key
            url
            (some (some p))
  unfolding new_handler configure_resilience_mechanisms configure_endpoints configure_each
  last_visited cfg h before key url p built last placed =
      let start : Handler = bare_handler lib cfg in
      let whole : some h ≡ some (configure_each lib start cfg (before ++ (key, url) ∷ [])) =
        sym built ∙ ap (configure_endpoints lib start cfg) last in
      let looped : h ≡ configure_each lib start cfg (before ++ (key, url) ∷ []) = cc whole in
      looped
      ∙ configure_each-append start cfg before ((key, url) ∷ [])
      ∙ ap (configure_placement lib (configure_each lib start cfg before) key url) placed

  -- If the placement that NewHandler's loop visits last has a health check of its own that parses, the
  -- handler takes every other placement for healthy, whatever its checker goes on to find.
  pub earlier_checks_lost :
      (cfg : Config) (h : Handler) (before : GoMap String) (key url other : String)
      (p : PlacementConfig) (hc : HealthCheckConfig) (parsed : ParsedHealthCheckConfig)
      (checks : List (ℕ × Health.CheckOutcome × ℕ))
      → new_handler lib cfg ≡ some h
      → get_cell_endpoints cfg ≡ some (before ++ (key, url) ∷ [])
      → get_placement_config cfg key ≡ some (some p)
      → p.health_check ≡ some hc
      → parse_health_check lib hc ≡ ok parsed
      → key ≢ other
      → Health.is_healthy (after_checks h.health_checker checks) other ≡ true
  earlier_checks_lost cfg h before key url other p hc parsed checks built last placed own parses n =
      let earlier : Handler = configure_each lib (bare_handler lib cfg) cfg before in
      unknown-after_checks h.health_checker other checks (
        ap (λ x. lookup other x.health_checker.endpoints)
          (last_visited cfg h before key url p built last placed)
        ∙ replaced_checker earlier key url other p hc parsed own parses n)
