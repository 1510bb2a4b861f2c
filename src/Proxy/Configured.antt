-- ===== src/Proxy/Configured.antt =====
-- internal/proxy/handler.go: the configuration that NewHandler puts into the handler.
use cell_routing_from_scratc.Prelude.{
  ◌≡◌, refl, String, Option, none, some, [], ◌∷◌, GoMap, arith, ◌∙◌, ap, Option-cases, Result-cases,
  inl, inr,
}
use cell_routing_from_scratc.Config.{
  Config, PlacementConfig, HealthCheckConfig, Library, get_cell_endpoints, get_placement_config,
  parse_health_check,
}
use cell_routing_from_scratc.Proxy.{
  Handler, register_default, configure_health, configure_limits, configure_placement,
  configure_each, configure_endpoints, configure_resilience_mechanisms, bare_handler, new_handler,
}

module _ (lib : Library) where
  configure_health-config :
      (h : Handler) (key url : String) (hc : Option HealthCheckConfig)
      → (configure_health lib h key url hc).config ≡ h.config
  unfolding configure_health register_default
  configure_health-config h key url none = refl
  configure_health-config h key url (some hc) = elim (Result-cases (parse_health_check lib hc)) [
    | inl (parsed, e) ↦ rw (e, configure_health)
    | inr (inl (x, e)) ↦ rw (e, configure_health)
    | inr (inr e) ↦ rw (e, configure_health)
  ]

  configure_limits-config :
      (h : Handler) (key : String) (p : PlacementConfig)
      → (configure_limits lib h key p).config ≡ h.config
  unfolding configure_limits
  configure_limits-config h key p = ground arith

  configure_placement-config :
      (h : Handler) (key url : String) (p : Option (Option PlacementConfig))
      → (configure_placement lib h key url p).config ≡ h.config
  unfolding configure_placement register_default
  configure_placement-config h key url none = refl
  configure_placement-config h key url (some none) = refl
  configure_placement-config h key url (some (some p)) =
      configure_limits-config (configure_health lib h key url p.health_check) key p
      ∙ configure_health-config h key url p.health_check

  configure_each-config :
      (h : Handler) (cfg : Config) (endpoints : GoMap String)
      → (configure_each lib h cfg endpoints).config ≡ h.config
  unfolding configure_each
  configure_each-config h cfg [] = refl
  configure_each-config h cfg ((key, url) ∷ rest) =
      configure_each-config (configure_placement lib h key url (get_placement_config cfg key)) cfg
        rest
      ∙ configure_placement-config h key url (get_placement_config cfg key)

  -- The handler keeps the configuration that it was built from.
  pub new_handler-config :
      (cfg : Config) (h : Handler) → new_handler lib cfg ≡ some h → h.config ≡ cfg
  unfolding new_handler configure_resilience_mechanisms configure_endpoints bare_handler
  new_handler-config cfg h e = elim (Option-cases (get_cell_endpoints cfg)) [
    | inl crashed ↦ absurd (ground (arith, crashed))
    | inr (endpoints, served) ↦
        let new : h ≡ configure_each lib (bare_handler lib cfg) cfg endpoints =
          ground (arith, served) in
        ap (λ x. x.config) new ∙ configure_each-config (bare_handler lib cfg) cfg endpoints
  ]
