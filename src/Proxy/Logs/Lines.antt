-- ===== src/Proxy/Logs/Lines.antt =====
-- What the log lines say of a request.
use cell_routing_from_scratc.Prelude.{
  ℕ, ◌≡◌, refl, String, false, ◌==◌, none, some, [], ◌∷◌, if◌then◌else◌, lookup, insert, arith, ap,
  sym, Option-cases, inl, inr, ◌⊎◌, Bool-cases,
}
use cell_routing_from_scratc.Prelude.Int.{pos}
use cell_routing_from_scratc.Config.{Config, get_cell_endpoints}
use cell_routing_from_scratc.Routing.{RoutingDecision}
use cell_routing_from_scratc.Circuit
use cell_routing_from_scratc.Http.{HttpRequest}
use cell_routing_from_scratc.Logging.{text, int, Entry, log_info}
use cell_routing_from_scratc.Proxy.Exchange.{RequestLog}
use cell_routing_from_scratc.Proxy.Rerouting.{
  Fallback, no_fallback, to, nil_pointer, fallback_of, Attempt, go, redirect, after_circuit,
}
use cell_routing_from_scratc.Proxy.Logs.{
  log_request, rerouted_log, then_log, circuit_logs, text_of_reason,
}

-- The entry of a completed request has its placement, status, upstream and id in both of its forms, and the
-- failover reason exactly if there is one.
pub log_request-fields :
    (now request_id : String) (r : HttpRequest) (l : RequestLog) (duration : ℕ)
    → let e = log_request now request_id r l duration in
      (lookup "request_id" e ≡ some (text request_id))
      × (lookup "placement_key" e ≡ some (text l.placement_key))
      × (lookup "route_reason" e ≡ some (text (text_of_reason l.route_reason)))
      × (lookup "upstream_url" e ≡ some (text l.upstream_url))
      × (lookup "status_code" e ≡ some (int (pos l.status_code)))
      × (lookup "failover_reason" e
          ≡ (if l.failover_reason == "" then none else some (text l.failover_reason)))
unfolding log_request lookup insert
log_request-fields now request_id r l duration = elim (Bool-cases (l.failover_reason == "")) [
  | inr over ↦ rw (over, log_request) (refl, refl, refl, refl, refl, refl)
  | inl direct ↦ elim (Bool-cases (l.routing_key == "")) [
    | inl keyless ↦ rw (direct, log_request) (rw (keyless) (refl, refl, refl, refl, refl, refl))
    | inr keyed ↦ rw (direct, log_request) (rw (keyed) (refl, refl, refl, refl, refl, refl))
  ]
]

fallback-cases :
    (f : Fallback) → (f ≡ no_fallback) ⊎ (f ≡ nil_pointer) ⊎ ((target : String) × (f ≡ to target))
fallback-cases no_fallback = inl refl
fallback-cases nil_pointer = inr (inl refl)
fallback-cases (to target) = inr (inr (target, refl))

redirect-go :
    (cfg : Config) (d : RoutingDecision) (target why : String) (a : Attempt)
    → redirect cfg d target why ≡ go a
    → a.decision.placement_key ≡ target
unfolding redirect
redirect-go cfg d target why a e = elim (Option-cases (get_cell_endpoints cfg)) [
  | inl crashed ↦ absurd (ground (arith, crashed))
  | inr (endpoints, found) ↦ ground (arith, found)
]

-- When the circuit's block sends a request to a fallback, it logs one line, which names the fallback both as
-- the fallback and as the original placement.
pub circuit_logs-misname :
    (now request_id routing_key : String) (cfg : Config) (d : RoutingDecision)
    (state : Circuit.State) (a : Attempt)
    → after_circuit cfg false d ≡ go a
    → (line : Entry) × (circuit_logs now request_id routing_key cfg false d state ≡ line ∷ [])
      × (lookup "original_placement" line ≡ some (text a.decision.placement_key))
      × (lookup "fallback_placement" line ≡ some (text a.decision.placement_key))
unfolding after_circuit circuit_logs log_info lookup insert
circuit_logs-misname now request_id routing_key cfg d state a e =
    elim (fallback-cases (fallback_of cfg d.placement_key)) [
      | inl unset ↦ absurd (ground (arith, unset))
      | inr (inl crashed) ↦ absurd (ground (arith, crashed))
      | inr (inr (target, set)) ↦
          let gone : redirect cfg d target "circuit_open" ≡ go a = rw (set, after_circuit) at e in
          let same = redirect-go cfg d target "circuit_open" a gone in
          (
            rerouted_log now request_id "circuit open, routing to fallback" a.decision.placement_key
                "fallback_placement" target,
            rw (set, circuit_logs)
                (ap
                  (λ v. then_log v (λ b.
                    rerouted_log now request_id "circuit open, routing to fallback"
                      b.decision.placement_key "fallback_placement" target))
                  gone),
            refl,
            ap (λ x. some (text x)) (sym same),
          )
    ]
