-- ===== src/Proxy/Rerouting/Gone.antt =====
-- Where a request has gone that was not refused, under any configuration.
use cell_routing_from_scratc.Prelude.{
  ◌≡◌, refl, inl, inr, String, Bool, true, false, ◌==◌, arith, ap, sym, ◌∙◌, Bool-cases,
  Option-cases, eq_iff,
}
use cell_routing_from_scratc.Config.{Config, get_cell_endpoints}
use cell_routing_from_scratc.Routing.{RoutingDecision}
use cell_routing_from_scratc.Proxy.Rerouting.{
  Fallback, no_fallback, to, nil_pointer, fallback_of, Verdict, Attempt, go, refuse, crash,
  redirect, after_circuit, after_health, failover,
}
use cell_routing_from_scratc.Proxy.Rerouting.Hops.{CircuitHop, HealthHop}

-- The way from placement `p` to placement `p'`: one hop of each block.
abbrev pub Way : Config → (String → Bool) → Bool → (p p' why : String) → Type 0
Way cfg healthy allowed p p' why =
    (q : String) × (why_q : String) × CircuitHop cfg allowed p q why_q
    × HealthHop cfg healthy q p' why_q why

redirect-go :
    (cfg : Config) (d : RoutingDecision) (target why : String) (a : Attempt)
    → redirect cfg d target why ≡ go a
    → (a.decision.placement_key ≡ target) × (a.failover_reason ≡ why)
unfolding redirect
redirect-go cfg d target why a e = elim (Option-cases (get_cell_endpoints cfg)) [
  | inl crashed ↦ absurd (ground (arith, crashed, e))
  | inr (endpoints, found) ↦ ground (arith, found, e)
]

health_hop :
    (cfg : Config) (healthy : String → Bool) (a a' : Attempt)
    → after_health cfg (healthy a.decision.placement_key) a ≡ go a'
    → HealthHop cfg healthy a.decision.placement_key a'.decision.placement_key a.failover_reason
        a'.failover_reason
unfolding after_health
health_hop cfg healthy a a' e = elim (Bool-cases (healthy a.decision.placement_key)) [
  | inl well ↦
      let same : go a ≡ go a' = rw well at e in
      let same' : a ≡ a' = cc same in
      inl (
        well,
        ap (λ x. x.decision.placement_key) (sym same'),
        ap (λ x. x.failover_reason) (sym same'),
      )
  | inr ill ↦ at ill (fallback_of cfg a.decision.placement_key) refl
]
  where
    at :
        healthy a.decision.placement_key ≡ false
        → (f : Fallback) → fallback_of cfg a.decision.placement_key ≡ f
        → HealthHop cfg healthy a.decision.placement_key a'.decision.placement_key a.failover_reason
            a'.failover_reason
    at ill nil_pointer q = absurd (ground (arith, ill, q, e))
    at ill (to target) q =
        let (there, why) =
          redirect-go cfg a.decision target "upstream_unhealthy" a'
            (rw (q, after_health) at (rw ill at e)) in
        inr (inl (ill, q ∙ ap to (sym there), why))
    at ill no_fallback q = elim (Bool-cases (cfg.default_placement == a.decision.placement_key)) [
      | inl same ↦
          let stays : go a ≡ go a' = ground (arith, ill, q, same, e) in
          let stays' : a ≡ a' = cc stays in
          let own = (eq_iff cfg.default_placement a.decision.placement_key).0 same in
          inr (
            inr (
              ill,
              q,
              ap (λ x. x.decision.placement_key) (sym stays') ∙ sym own,
              inl (
                ap (λ x. x.decision.placement_key) (sym stays'),
                ap (λ x. x.failover_reason) (sym stays'),
              ),
            ))
      | inr other ↦
          let (there, why) =
            redirect-go cfg a.decision cfg.default_placement "upstream_unhealthy" a'
              (rw other at (rw (q, after_health) at (rw ill at e))) in
          inr (
            inr (
              ill,
              q,
              there,
              inr (
                λ x.
                    ground (
                      arith,
                      other,
                      there,
                      x,
                      eq_iff cfg.default_placement a.decision.placement_key,
                    ),
                why,
              ),
            ))
    ]

pub failover-Way :
    (cfg : Config) (healthy : String → Bool) (allowed : Bool) (d : RoutingDecision) (a : Attempt)
    → failover cfg healthy allowed d ≡ go a
    → Way cfg healthy allowed d.placement_key a.decision.placement_key a.failover_reason
unfolding failover after_circuit
failover-Way cfg healthy true d a e = (
  d.placement_key,
  "",
  inl (refl, refl, refl),
  health_hop cfg healthy (record { decision = d; failover_reason = "" }) a e,
)
failover-Way cfg healthy false d a e = at (fallback_of cfg d.placement_key) refl
  where
    moved :
        (target : String) (v : Verdict)
        → fallback_of cfg d.placement_key ≡ to target
        → redirect cfg d target "circuit_open" ≡ v
        → Way cfg healthy false d.placement_key a.decision.placement_key a.failover_reason
    moved target refuse q w = absurd (ground (arith, q, w, e))
    moved target crash q w = absurd (ground (arith, q, w, e))
    moved target (go x) q w =
        let (there, why) = redirect-go cfg d target "circuit_open" x w in
        (
          x.decision.placement_key,
          x.failover_reason,
          inr (refl, q ∙ ap to (sym there), why),
          health_hop cfg healthy x a (rw (w, failover) at (rw (q, after_circuit, failover) at e)),
        )

    at :
        (f : Fallback)
        → fallback_of cfg d.placement_key ≡ f
        → Way cfg healthy false d.placement_key a.decision.placement_key a.failover_reason
    at no_fallback q = absurd (ground (arith, q, e))
    at nil_pointer q = absurd (ground (arith, q, e))
    at (to target) q = moved target (redirect cfg d target "circuit_open") q refl
