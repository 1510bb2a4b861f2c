-- ===== src/Proxy/Serve/Answers.antt =====
-- What becomes of a request that arrives, at any time.
use cell_routing_from_scratc.Prelude.{
  ℕ, ◌≡◌, refl, ◌≢◌, ◌⊎◌, inl, inr, String, Bool, true, false, ◌==◌, Result, ok, err, panic, arith,
  ap, ◌∙◌, sym, subst, Bool-cases, Option-cases,
}
use cell_routing_from_scratc.Config.{Config, Library}
use cell_routing_from_scratc.Config.Validity.{IsValid}
use cell_routing_from_scratc.Routing.{ConfigProvider, RoutingDecision, RouteError, route}
use cell_routing_from_scratc.Routing.Decision.{route-ne-panic}
use cell_routing_from_scratc.Circuit
use cell_routing_from_scratc.Limits
use cell_routing_from_scratc.Limits.Slots.{Built}
use cell_routing_from_scratc.Proxy.{Handler}
use cell_routing_from_scratc.Proxy.Exchange.{
  Request, Served, Flight, Begun, answered, forwards, crashed, stuck,
}
use cell_routing_from_scratc.Proxy.Rerouting.{
  Fallback, no_fallback, to, nil_pointer, fallback_of, Verdict, go, refuse, crash, Attempt,
  redirect, failover, after_circuit, after_health,
}
use cell_routing_from_scratc.Proxy.Rerouting.Hops.{not_nil}
use cell_routing_from_scratc.Proxy.Serve.{
  release_then, launch, begin_sized, begin_admitted, begin_routed, begin, consult, body_error,
}
use cell_routing_from_scratc.Proxy.Serve.Traffic.{
  Traffic, arrive, complete, checked, arrived, Moves, here, then, quiet, begin-is_stuck,
}
use cell_routing_from_scratc.Proxy.Serve.Frozen.{begin-config, finish-config}
use cell_routing_from_scratc.Proxy.Serve.Guards.{Cleared, begin-Cleared}
use cell_routing_from_scratc.Proxy.Serve.Refusals.{Refused, begin-Refused}

module _ (lib : Library) (cfg : Config) (v : IsValid lib cfg) where
  redirect-ne-crash :
      (d : RoutingDecision) (target why : String) → redirect cfg d target why ≢ crash
  unfolding redirect
  redirect-ne-crash d target why e = ground (arith, v.served, e)

  after_health-ne-crash : (healthy : Bool) (a : Attempt) → after_health cfg healthy a ≢ crash
  unfolding after_health
  after_health-ne-crash true a e = ground (arith, e)
  after_health-ne-crash false a e = at (fallback_of cfg a.decision.placement_key) refl
    where
      at : (f : Fallback) → fallback_of cfg a.decision.placement_key ≡ f → ⊥
      at nil_pointer q = not_nil lib cfg v a.decision.placement_key q
      at (to target) q =
          redirect-ne-crash a.decision target "upstream_unhealthy" (rw (q, after_health) at e)
      at no_fallback q = elim (Bool-cases (cfg.default_placement == a.decision.placement_key)) [
        | inl same ↦ ground (arith, q, same, e)
        | inr other ↦
            redirect-ne-crash a.decision cfg.default_placement "upstream_unhealthy"
              (rw other at (rw (q, after_health) at e))
      ]

  after_circuit-ne-crash :
      (allowed : Bool) (d : RoutingDecision) → after_circuit cfg allowed d ≢ crash
  unfolding after_circuit
  after_circuit-ne-crash true d e = ground (arith, e)
  after_circuit-ne-crash false d e = at (fallback_of cfg d.placement_key) refl
    where
      at : (f : Fallback) → fallback_of cfg d.placement_key ≡ f → ⊥
      at nil_pointer q = not_nil lib cfg v d.placement_key q
      at (to target) q = redirect-ne-crash d target "circuit_open" (rw (q, after_circuit) at e)
      at no_fallback q = ground (arith, q, e)

  failover-ne-crash :
      (healthy : String → Bool) (allowed : Bool) (d : RoutingDecision)
      → failover cfg healthy allowed d ≢ crash
  unfolding failover
  failover-ne-crash healthy allowed d e = at (after_circuit cfg allowed d) refl
    where
      at : (w : Verdict) → after_circuit cfg allowed d ≡ w → ⊥
      at refuse q = ground (arith, q, e)
      at crash q = after_circuit-ne-crash allowed d q
      at (go a) q =
          after_health-ne-crash (healthy a.decision.placement_key) a (rw (q, failover) at e)

release_then-ne-crashed :
    (h : Handler) (key : String) (s : Served) → (release_then h key (answered s)).1 ≢ crashed
unfolding release_then
release_then-ne-crashed h key s e = elim (Option-cases (Limits.release h.limits_manager key)) [
  | inl blocked ↦ ground (arith, blocked, e)
  | inr (l, freed) ↦ ground (arith, freed, e)
]

launch-ne-crashed :
    (h : Handler) (r : Request) (d : RoutingDecision) (state : Circuit.State) (w : Verdict)
    → w ≢ crash
    → (launch h r d state w).1 ≢ crashed
unfolding launch
launch-ne-crashed h r d state (go a) n e = ground (arith, e)
launch-ne-crashed h r d state refuse n e = release_then-ne-crashed h d.placement_key _ e
launch-ne-crashed h r d state crash n e = n refl

begin_routed-ne-crashed :
    (lib : Library) (h : Handler) (r : Request) (now : ℕ) (o : Result RouteError RoutingDecision)
    → IsValid lib h.config
    → o ≢ panic
    → (begin_routed h r now o).1 ≢ crashed
unfolding begin_routed begin_admitted begin_sized consult
begin_routed-ne-crashed lib h r now (err x) v n e = ground (arith, e)
begin_routed-ne-crashed lib h r now panic v n e = n refl
begin_routed-ne-crashed lib h r now (ok d) v n e =
    let (limits, admitted) = Limits.try_acquire h.limits_manager d.placement_key in
    let h' = record h { limits_manager = limits } in
    elim (Bool-cases admitted) [
      | inr full ↦ ground (arith, full, e)
      | inl free ↦ elim (Option-cases (body_error h' r d.placement_key)) [
        | inr (x, large) ↦
            release_then-ne-crashed h' d.placement_key _
              (rw (large, begin_admitted) at (rw free at e))
        | inl fits ↦
            launch-ne-crashed (consult h' d.placement_key now).0 r d _ _
              (failover-ne-crash lib h.config v _ _ d) (rw (fits, begin_admitted) at (rw free at e))
      ]
    ]

begin-ne-crashed :
    (lib : Library) (provider : ConfigProvider) (h : Handler) (r : Request) (now : ℕ)
    → IsValid lib h.config
    → (begin provider h r now).1 ≢ crashed
unfolding begin
begin-ne-crashed lib provider h r now v e = elim (Bool-cases (r.routing_key == "")) [
  | inl missing ↦ ground (arith, missing, e)
  | inr given ↦
      begin_routed-ne-crashed lib h r now (route provider r.routing_key) v
        (route-ne-panic provider r.routing_key) (rw given at e)
]

pub arrived-handler : (t : Traffic) (r : Handler × Begun) → (arrived t r).handler ≡ r.0
arrived-handler t (h, forwards f) = refl
arrived-handler t (h, stuck acquired) = refl
arrived-handler t (h, answered s) = refl
arrived-handler t (h, crashed) = refl

Moves-config : {t u : Traffic} → Moves t u → u.handler.config ≡ t.handler.config
Moves-config here = refl
Moves-config ((then) {u} m (arrive provider r now)) =
    ap (λ h. h.config) (arrived-handler u (begin provider u.handler r now))
    ∙ begin-config provider u.handler r now
    ∙ Moves-config m
Moves-config ((then) {u} m (complete before after f up now h served split e)) =
    finish-config u.handler h f up now served e ∙ Moves-config m
Moves-config ((then) m (checked address outcome now)) = Moves-config m

-- From a handler with a valid configuration whose limits were set up before the first request, whatever
-- requests arrive and complete, in any order and with any outcomes and health checks in between: a request
-- that arrives then is either answered by the router itself, for one of five reasons and with the answer of
-- that reason, one with no routing key among them, or goes to its upstream; it neither panics nor blocks.
-- One that goes there has a key that Route decided and a free slot, has no body or one within the limit
-- that the placement has, and has gone the way that its breaker and the health checks of the moment lead.
pub begin_total :
    (lib : Library) (h : Handler) {t : Traffic} (provider : ConfigProvider) (r : Request) (now : ℕ)
    → IsValid lib h.config
    → Built h.limits_manager
    → Moves (quiet h) t
    → ((s : Served) × ((begin provider t.handler r now).1 ≡ answered s)
        × Refused provider t.handler r now s)
      ⊎ ((f : Flight) × ((begin provider t.handler r now).1 ≡ forwards f)
          × Cleared provider t.handler r now f)
begin_total lib h {t} provider r now v built moves = at (begin provider t.handler r now).1 refl
  where
    at :
        (b : Begun)
        → (begin provider t.handler r now).1 ≡ b
        → ((s : Served) × ((begin provider t.handler r now).1 ≡ answered s)
            × Refused provider t.handler r now s)
          ⊎ ((f : Flight) × ((begin provider t.handler r now).1 ≡ forwards f)
              × Cleared provider t.handler r now f)
    at (answered s) e = inl (s, e, begin-Refused provider t.handler r now s e)
    at (forwards f) e = inr (f, e, begin-Cleared provider t.handler r now f e)
    at crashed e = absurd (
        begin-ne-crashed lib provider t.handler r now
          (subst (IsValid lib) (sym (Moves-config moves)) v) e)
    at (stuck acquired) e = absurd (ground (arith, begin-is_stuck h provider r now built moves, e))
