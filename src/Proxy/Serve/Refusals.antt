-- ===== src/Proxy/Serve/Refusals.antt =====
-- The requests that ServeHTTP answers itself, without asking an upstream.
use cell_routing_from_scratc.Prelude.{
  ℕ, ◌≡◌, refl, ◌≢◌, inl, inr, String, Bool, true, false, ◌==◌, none, some, Result, ok, err, panic,
  arith, ap, ◌∙◌, Bool-cases, Option-cases, eq_iff,
}
use cell_routing_from_scratc.Config.{Config}
use cell_routing_from_scratc.Routing.{ConfigProvider, RoutingDecision, RouteError, route}
use cell_routing_from_scratc.Circuit
use cell_routing_from_scratc.Circuit.{opened}
use cell_routing_from_scratc.Circuit.Window.{refused-state}
use cell_routing_from_scratc.Limits
use cell_routing_from_scratc.Proxy.{Handler}
use cell_routing_from_scratc.Proxy.Exchange.{Request, Served, Begun, answered, early, rejected}
use cell_routing_from_scratc.Proxy.Rerouting.{
  Fallback, no_fallback, to, nil_pointer, fallback_of, Verdict, go, refuse, crash, Attempt,
  redirect, failover, after_circuit, after_health,
}
use cell_routing_from_scratc.Proxy.Serve.{
  release_then, launch, begin_sized, begin_admitted, begin_routed, begin, consult, body_error,
}
use cell_routing_from_scratc.Proxy.Serve.Outcome.{allows_at}
use cell_routing_from_scratc.Proxy.Serve.Guards.{Fits, slotted, slotted-Fits_iff}

-- Why a request is answered by the router itself, and with what.
pub data Refused (provider : ConfigProvider) (h : Handler) (r : Request) (now : ℕ) (s : Served)
    : Type 0 where
  no_key : r.routing_key ≡ "" → s ≡ early "" 400 → Refused provider h r now s
  unroutable :
      (e : RouteError)
      → r.routing_key ≢ ""
      → route provider r.routing_key ≡ err e
      → s ≡ early r.routing_key 500
      → Refused provider h r now s
  full :
      (d : RoutingDecision)
      → route provider r.routing_key ≡ ok d
      → (Limits.try_acquire h.limits_manager d.placement_key).1 ≡ false
      → s ≡ rejected r.routing_key d 429 "concurrency_limit" none
      → Refused provider h r now s
  too_large :
      (d : RoutingDecision)
      → route provider r.routing_key ≡ ok d
      → (Limits.try_acquire h.limits_manager d.placement_key).1 ≡ true
      → (Fits h r d.placement_key → ⊥)
      → s ≡ rejected r.routing_key d 413 "body_size_limit" none
      → Refused provider h r now s
  shut :
      (d : RoutingDecision)
      → route provider r.routing_key ≡ ok d
      → (Limits.try_acquire h.limits_manager d.placement_key).1 ≡ true
      → Fits h r d.placement_key
      → allows_at h d.placement_key now ≡ false
      → fallback_of h.config d.placement_key ≡ no_fallback
      → s ≡ rejected r.routing_key d 503 "circuit_open" (some opened)
      → Refused provider h r now s

release_then-answered :
    (h : Handler) (key : String) (outcome : Begun) (s : Served)
    → (release_then h key outcome).1 ≡ answered s
    → outcome ≡ answered s
unfolding release_then
release_then-answered h key outcome s e =
    elim (Option-cases (Limits.release h.limits_manager key)) [
      | inl blocked ↦ absurd (ground (arith, blocked, e))
      | inr (l, freed) ↦ rw (freed, release_then) at e
    ]

redirect-ne-refuse :
    (cfg : Config) (d : RoutingDecision) (target why : String) → redirect cfg d target why ≢ refuse
unfolding redirect
redirect-ne-refuse cfg d target why e = ground (arith, e)

after_health-ne-refuse :
    (cfg : Config) (healthy : Bool) (a : Attempt) → after_health cfg healthy a ≢ refuse
unfolding after_health redirect
after_health-ne-refuse cfg true a e = ground (arith, e)
after_health-ne-refuse cfg false a e = at (fallback_of cfg a.decision.placement_key) refl
  where
    at : (f : Fallback) → fallback_of cfg a.decision.placement_key ≡ f → ⊥
    at no_fallback q = ground (arith, q, e)
    at (to target) q = ground (arith, q, e)
    at nil_pointer q = ground (arith, q, e)

after_circuit-refuse :
    (cfg : Config) (allowed : Bool) (d : RoutingDecision)
    → after_circuit cfg allowed d ≡ refuse
    → (allowed ≡ false) × (fallback_of cfg d.placement_key ≡ no_fallback)
unfolding after_circuit
after_circuit-refuse cfg true d e = absurd (ground (arith, e))
after_circuit-refuse cfg false d e = (refl, at (fallback_of cfg d.placement_key) refl)
  where
    at :
        (f : Fallback)
        → fallback_of cfg d.placement_key ≡ f
        → fallback_of cfg d.placement_key ≡ no_fallback
    at no_fallback q = q
    at nil_pointer q = absurd (ground (arith, q, e))
    at (to target) q =
        absurd (redirect-ne-refuse cfg d target "circuit_open" (rw (q, after_circuit) at e))

failover-refuse :
    (cfg : Config) (healthy : String → Bool) (allowed : Bool) (d : RoutingDecision)
    → failover cfg healthy allowed d ≡ refuse
    → after_circuit cfg allowed d ≡ refuse
unfolding failover
failover-refuse cfg healthy allowed d e = at (after_circuit cfg allowed d) refl
  where
    at : (v : Verdict) → after_circuit cfg allowed d ≡ v → after_circuit cfg allowed d ≡ refuse
    at refuse q = q
    at crash q = absurd (ground (arith, q, e))
    at (go a) q =
        absurd
          (after_health-ne-refuse cfg (healthy a.decision.placement_key) a (rw (q, failover) at e))

launch-answered :
    (h : Handler) (r : Request) (d : RoutingDecision) (state : Circuit.State) (v : Verdict)
    (s : Served)
    → (launch h r d state v).1 ≡ answered s
    → (v ≡ refuse) × (s ≡ rejected r.routing_key d 503 "circuit_open" (some state))
unfolding launch
launch-answered h r d state (go a) s e = absurd (ground (arith, e))
launch-answered h r d state crash s e =
    absurd (ground (arith, release_then-answered h d.placement_key _ s e))
launch-answered h r d state refuse s e =
    (refl, ground (arith, release_then-answered h d.placement_key _ s e))

begin_sized-answered :
    (h : Handler) (r : Request) (now : ℕ) (d : RoutingDecision) (s : Served)
    → (begin_sized h r now d).1 ≡ answered s
    → (allows_at h d.placement_key now ≡ false)
      × (fallback_of h.config d.placement_key ≡ no_fallback)
      × (s ≡ rejected r.routing_key d 503 "circuit_open" (some opened))
unfolding begin_sized consult
begin_sized-answered h r now d s e =
    let (refused, with_state) = launch-answered (consult h d.placement_key now).0 r d _ _ s e in
    let (is_shut, no_other) =
      after_circuit-refuse h.config (allows_at h d.placement_key now) d
        (failover-refuse h.config _ (allows_at h d.placement_key now) d refused) in
    (
      is_shut,
      no_other,
      with_state
          ∙ ap (λ st. rejected r.routing_key d 503 "circuit_open" (some st))
              (refused-state (Circuit.get_breaker h.circuit_manager d.placement_key now).1 now
                is_shut),
    )

begin_routed-Refused :
    (provider : ConfigProvider) (h : Handler) (r : Request) (now : ℕ)
    (o : Result RouteError RoutingDecision) (s : Served)
    → r.routing_key ≢ ""
    → route provider r.routing_key ≡ o
    → (begin_routed h r now o).1 ≡ answered s
    → Refused provider h r now s
unfolding begin_routed begin_admitted
begin_routed-Refused provider h r now (err x) s k q e = unroutable x k q (ground (arith, e))
begin_routed-Refused provider h r now panic s k q e = absurd (ground (arith, e))
begin_routed-Refused provider h r now (ok d) s k q e =
    elim (Bool-cases (Limits.try_acquire h.limits_manager d.placement_key).1) [
      | inr none_free ↦ full d q none_free (ground (arith, none_free, e))
      | inl free ↦ elim (Option-cases (body_error (slotted h d.placement_key) r d.placement_key)) [
        | inr (x, large) ↦
            let out =
              release_then-answered (slotted h d.placement_key) d.placement_key _ s
                (rw (large, begin_admitted) at (rw free at e)) in
            too_large d q free
              (λ f. ground (arith, large, (slotted-Fits_iff h r d.placement_key).1 f))
              (ground (arith, out))
        | inl fits ↦
            let (is_shut, no_other, out) =
              begin_sized-answered (slotted h d.placement_key) r now d s
                (rw (fits, begin_admitted) at (rw free at e)) in
            shut d q free ((slotted-Fits_iff h r d.placement_key).0 fits) is_shut no_other out
      ]
    ]

-- A request that the router answers itself has one of five reasons, and each has its own answer: no routing
-- key (400), no decision of `Route` (500), no free slot of the placement (429), a body over the placement's
-- limit (413), or an open circuit at a placement without a fallback (503, with the circuit's state).
-- Nothing but the status and that state is told of the decision; the log has the reason.
pub begin-Refused :
    (provider : ConfigProvider) (h : Handler) (r : Request) (now : ℕ) (s : Served)
    → (begin provider h r now).1 ≡ answered s
    → Refused provider h r now s
unfolding begin
begin-Refused provider h r now s e = elim (Bool-cases (r.routing_key == "")) [
  | inl missing ↦
      let k : r.routing_key ≡ "" = (eq_iff r.routing_key "").0 missing in
      no_key k (ground (arith, missing, k, e))
  | inr given ↦
      begin_routed-Refused provider h r now (route provider r.routing_key) s
        (λ k. ground (arith, given, k, eq_iff r.routing_key "")) refl (rw given at e)
]

-- A request with a key that `Route` has no decision for is answered with 500.
pub begin-unroutable :
    (provider : ConfigProvider) (h : Handler) (r : Request) (now : ℕ) (e : RouteError)
    → r.routing_key ≢ ""
    → route provider r.routing_key ≡ err e
    → (begin provider h r now).1 ≡ answered (early r.routing_key 500)
unfolding begin begin_routed
begin-unroutable provider h r now e k q = elim (Bool-cases (r.routing_key == "")) [
  | inl missing ↦ absurd (k ((eq_iff r.routing_key "").0 missing))
  | inr given ↦ rw given (ap (λ x. (begin_routed h r now x).1) q)
]
