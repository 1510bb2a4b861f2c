-- ===== src/Proxy/Serve/Unguarded.antt =====
-- A failover against the guards of the placement that it goes to.
use cell_routing_from_scratc.Prelude.{
  ℕ, ◌≡◌, refl, ◌≢◌, inl, inr, true, false, ◌==◌, none, ok, ap, ◌∙◌, Bool-cases, eq_iff,
}
use cell_routing_from_scratc.Prelude.Int.{pos}
use cell_routing_from_scratc.Config.{Config, Library, get_cell_endpoints}
use cell_routing_from_scratc.Config.Validity.{IsValid}
use cell_routing_from_scratc.Prelude.{String, Bool, GoMap, some, arith}
use cell_routing_from_scratc.Routing.{ConfigProvider, RoutingDecision, route}
use cell_routing_from_scratc.Health
use cell_routing_from_scratc.Limits
use cell_routing_from_scratc.Proxy.{Handler}
use cell_routing_from_scratc.Proxy.Exchange.{Request, Flight, forwards}
use cell_routing_from_scratc.Proxy.Rerouting.{
  go, to, Attempt, failover, after_circuit, after_health, fallback_of, redirect, url_at,
}
use cell_routing_from_scratc.Proxy.Serve.{
  launch, begin_sized, begin_admitted, begin_routed, begin, consult, body_error,
}
use cell_routing_from_scratc.Proxy.Serve.Outcome.{allows_at}

-- The steps of `begin` for a request that passes every guard.
launched :
    (h : Handler) (r : Request) (now : ℕ) (d : RoutingDecision) (a : Attempt)
    → body_error h r d.placement_key ≡ none
    → failover h.config (Health.is_healthy h.health_checker) (allows_at h d.placement_key now) d
      ≡ go a
    → (begin_admitted h r now d).1
      ≡ forwards (record {
        routing_key = r.routing_key;
        acquired = d.placement_key;
        decision = a.decision;
        failover_reason = a.failover_reason;
      })
unfolding begin_admitted begin_sized consult launch
launched h r now d a fits over =
    let (h', state, answer) = consult h d.placement_key now in
    rw (fits, begin_admitted) (ap (λ v. (launch h' r d state v).1) over)

admitted :
    (provider : ConfigProvider) (h : Handler) (r : Request) (now : ℕ) (d : RoutingDecision)
    → r.routing_key ≢ ""
    → route provider r.routing_key ≡ ok d
    → (Limits.try_acquire h.limits_manager d.placement_key).1 ≡ true
    → (begin provider h r now).1
      ≡ (begin_admitted
          (record h { limits_manager = (Limits.try_acquire h.limits_manager d.placement_key).0 })
          r
          now
          d).1
unfolding begin begin_routed
admitted provider h r now d k q slot = elim (Bool-cases (r.routing_key == "")) [
  | inl missing ↦ absurd (k ((eq_iff r.routing_key "").0 missing))
  | inr given ↦ rw given (ap (λ x. (begin_routed h r now x).1) q ∙ rw slot)
]

-- A failover from an open circuit does not look at the fallback's limits or breaker: if the router's
-- choice has an open circuit and a fallback that counts as healthy, a request without a body is
-- forwarded to the fallback, whatever the fallback's breaker and slots are.
pub fallback_unguarded :
    (provider : ConfigProvider) (h : Handler) (r : Request) (now : ℕ) (d : RoutingDecision)
    (a : Attempt)
    → r.routing_key ≢ ""
    → route provider r.routing_key ≡ ok d
    → (Limits.try_acquire h.limits_manager d.placement_key).1 ≡ true
    → r.content_length ≡ pos 0
    → allows_at h d.placement_key now ≡ false
    → after_circuit h.config false d ≡ go a
    → Health.is_healthy h.health_checker a.decision.placement_key ≡ true
    → (f : Flight) × ((begin provider h r now).1 ≡ forwards f) × (f.decision ≡ a.decision)
unfolding failover after_health body_error
fallback_unguarded provider h r now d a k q slot small shut over well = (
  _,
  admitted provider h r now d k q slot
      ∙ launched
          (record h { limits_manager = (Limits.try_acquire h.limits_manager d.placement_key).0 }) r
          now d a (rw small) (rw (shut, failover) (rw (over, failover) (rw well))),
  refl,
)

redirect-go :
    (cfg : Config) (endpoints : GoMap String) (d : RoutingDecision) (target why : String)
    → get_cell_endpoints cfg ≡ some endpoints
    → (a : Attempt) × (redirect cfg d target why ≡ go a)
      × (a.decision.placement_key ≡ target)
      × (a.failover_reason ≡ why)
unfolding redirect
redirect-go cfg endpoints d target why served = (
  record {
    decision = record d { placement_key = target; endpoint_url = url_at target endpoints };
    failover_reason = why;
  },
  ground (arith, served),
  refl,
  refl,
)

failover-back :
    (cfg : Config) (healthy : String → Bool) (endpoints : GoMap String) (d : RoutingDecision)
    (target back : String)
    → get_cell_endpoints cfg ≡ some endpoints
    → fallback_of cfg d.placement_key ≡ to target
    → fallback_of cfg target ≡ to back
    → healthy target ≡ false
    → (a : Attempt) × (failover cfg healthy false d ≡ go a)
      × (a.decision.placement_key ≡ back)
      × (a.failover_reason ≡ "upstream_unhealthy")
unfolding failover after_circuit after_health
failover-back cfg healthy endpoints d target back served over and_back ill =
    let (a, first, at_target, why) = redirect-go cfg endpoints d target "circuit_open" served in
    let (b, second, at_back, why') =
      redirect-go cfg endpoints a.decision back "upstream_unhealthy" served in
    let away : after_circuit cfg false d ≡ go a = rw (over, after_circuit) first in
    let still_ill : healthy a.decision.placement_key ≡ false = ap healthy at_target ∙ ill in
    let returns : fallback_of cfg a.decision.placement_key ≡ to back =
      ap (fallback_of cfg) at_target ∙ and_back in
    (
      b,
      rw (away, failover) (rw (still_ill, after_health) (rw (returns, after_health) second)),
      at_back,
      why',
    )

-- Two placements that are each other's fallback, as a valid configuration may have them: if the router's
-- choice has an open circuit and its fallback counts as unhealthy, a request without a body is forwarded
-- to the very placement whose circuit is open.
pub circuit_bypassed :
    (lib : Library) (provider : ConfigProvider) (h : Handler) (r : Request) (now : ℕ)
    (d : RoutingDecision) (target : String)
    → IsValid lib h.config
    → r.routing_key ≢ ""
    → route provider r.routing_key ≡ ok d
    → (Limits.try_acquire h.limits_manager d.placement_key).1 ≡ true
    → r.content_length ≡ pos 0
    → allows_at h d.placement_key now ≡ false
    → fallback_of h.config d.placement_key ≡ to target
    → fallback_of h.config target ≡ to d.placement_key
    → Health.is_healthy h.health_checker target ≡ false
    → (f : Flight) × ((begin provider h r now).1 ≡ forwards f)
      × (f.decision.placement_key ≡ d.placement_key)
      × (f.failover_reason ≡ "upstream_unhealthy")
unfolding body_error
circuit_bypassed lib provider h r now d target v k q slot small shut over back ill =
    let (a, gone, at, why) =
      failover-back h.config (Health.is_healthy h.health_checker) v.endpoints d target
        d.placement_key v.served over back ill in
    (
      _,
      admitted provider h r now d k q slot
          ∙ launched
              (record h {
                limits_manager = (Limits.try_acquire h.limits_manager d.placement_key).0;
              })
              r now d a (rw small) (rw shut gone),
      at,
      why,
    )
