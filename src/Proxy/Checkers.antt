-- ===== src/Proxy/Checkers.antt =====
-- internal/proxy/handler.go: the health checkers that NewHandler starts, none of which is stopped.
use cell_routing_from_scratc.Prelude.{
  ◌≡◌, refl, inl, inr, String, false, Option, none, some, List, [], ◌∷◌, All, arith, sym, ◌∙◌,
  subst, GoMap, Option-cases, Result-cases,
}
use cell_routing_from_scratc.Config.{
  Config, PlacementConfig, HealthCheckConfig, Library, get_cell_endpoints, get_placement_config,
  parse_health_check,
}
use cell_routing_from_scratc.Health
use cell_routing_from_scratc.Proxy.{
  Handler, register_default, configure_health, configure_limits, configure_placement,
  configure_each, configure_endpoints, configure_resilience_mechanisms, bare_handler, new_handler,
}

-- No stop channel has been closed yet.
abbrev pub CheckersRun : Health.Checker × List Health.Checker → Type 0
CheckersRun (current, retired) = (current.stopped ≡ false) × All (λ c. c.stopped ≡ false) retired

abbrev pub checkers : Handler → Health.Checker × List Health.Checker
checkers h = (h.health_checker, h.retired)

abbrev pub IsRunning : Handler → Type 0
IsRunning h = CheckersRun (checkers h)

register-stopped :
    (c : Health.Checker) (key url : String)
    → (Health.register_endpoint c key url).stopped ≡ c.stopped
unfolding Health.register_endpoint
register-stopped c key url = ground arith

module _ (lib : Library) where
  configure_health-IsRunning :
      (h : Handler) (key url : String) (hc : Option HealthCheckConfig)
      → IsRunning h
      → IsRunning (configure_health lib h key url hc)
  unfolding configure_health register_default Health.new_checker
  configure_health-IsRunning h key url none runs =
      (register-stopped h.health_checker key url ∙ runs.0, runs.1)
  configure_health-IsRunning h key url (some hc) runs =
      elim (Result-cases (parse_health_check lib hc)) [
        | inl (parsed, e) ↦ rw (e, configure_health) (register-stopped _ key url, runs)
        | inr (inl (x, e)) ↦ rw (e, configure_health) runs
        | inr (inr e) ↦ rw (e, configure_health) runs
      ]

  configure_limits-checkers :
      (h : Handler) (key : String) (p : PlacementConfig)
      → checkers (configure_limits lib h key p) ≡ checkers h
  unfolding configure_limits
  configure_limits-checkers h key p = ground arith

  configure_placement-IsRunning :
      (h : Handler) (key url : String) (p : Option (Option PlacementConfig))
      → IsRunning h
      → IsRunning (configure_placement lib h key url p)
  unfolding configure_placement register_default
  configure_placement-IsRunning h key url none runs =
      (register-stopped h.health_checker key url ∙ runs.0, runs.1)
  configure_placement-IsRunning h key url (some none) runs =
      (register-stopped h.health_checker key url ∙ runs.0, runs.1)
  configure_placement-IsRunning h key url (some (some p)) runs =
      subst CheckersRun
        (sym (configure_limits-checkers (configure_health lib h key url p.health_check) key p))
        (configure_health-IsRunning h key url p.health_check runs)

  configure_each-IsRunning :
      (h : Handler) (cfg : Config) (endpoints : GoMap String)
      → IsRunning h
      → IsRunning (configure_each lib h cfg endpoints)
  unfolding configure_each
  configure_each-IsRunning h cfg [] runs = runs
  configure_each-IsRunning h cfg ((key, url) ∷ rest) runs =
      configure_each-IsRunning (configure_placement lib h key url (get_placement_config cfg key))
        cfg rest (configure_placement-IsRunning h key url (get_placement_config cfg key) runs)

  pub new_handler-IsRunning :
      (cfg : Config) (h : Handler) → new_handler lib cfg ≡ some h → IsRunning h
  unfolding new_handler configure_resilience_mechanisms configure_endpoints bare_handler
      Health.new_checker
  new_handler-IsRunning cfg h e = elim (Option-cases (get_cell_endpoints cfg)) [
    | inl crashed ↦ absurd (ground (arith, crashed))
    | inr (endpoints, served) ↦
        let new : configure_each lib (bare_handler lib cfg) cfg endpoints ≡ h =
          ground (arith, served) in
        subst IsRunning new
          (configure_each-IsRunning (bare_handler lib cfg) cfg endpoints (refl, tt))
  ]
