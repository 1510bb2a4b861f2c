-- ===== src/Proxy/Serve/Outcome.antt =====
-- What must have held when a request is forwarded, and what its outcome changes.
use cell_routing_from_scratc.Prelude.{
  ℕ, ◌≡◌, refl, ◌≢◌, inl, inr, String, Bool, true, ◌==◌, none, some, lookup, if◌then◌else◌, Result,
  ok, err, panic, arith, ap, ◌∙◌, Bool-cases, Option-cases, eq_iff, lookup-insert_self,
  lookup-insert_ne, not, ◌||◌, leb, insert,
}
use cell_routing_from_scratc.Routing.{ConfigProvider, RoutingDecision, RouteError, route}
use cell_routing_from_scratc.Circuit
use cell_routing_from_scratc.Health
use cell_routing_from_scratc.Limits
use cell_routing_from_scratc.Proxy.{Handler}
use cell_routing_from_scratc.Proxy.Exchange.{Request, Served, Flight, Begun, forwards}
use cell_routing_from_scratc.Proxy.Rerouting.{Verdict, go, refuse, crash, failover}
use cell_routing_from_scratc.Proxy.Serve.{
  release_then, launch, begin_sized, begin_admitted, begin_routed, begin, consult, body_error,
  Upstream, finish, release_last, respond, no_response, responded, record_outcome, failed,
}

-- The placement's breaker answers `Allow` at this time.
abbrev pub allows_at : Handler → String → ℕ → Bool
allows_at h placement now =
    (Circuit.allow (Circuit.get_breaker h.circuit_manager placement now).1 now).1

-- What a forwarded request has passed.
pub record Passed (provider : ConfigProvider) (h : Handler) (r : Request) (now : ℕ) (f : Flight)
    : Type 0 where
  pub d : RoutingDecision
  pub keyed : r.routing_key ≢ ""
  pub routed : route provider r.routing_key ≡ ok d
  pub slot : (Limits.try_acquire h.limits_manager d.placement_key).1 ≡ true
  pub sized :
      body_error
        (record h { limits_manager = (Limits.try_acquire h.limits_manager d.placement_key).0 })
        r
        d.placement_key
      ≡ none
  pub acquired : f.acquired ≡ d.placement_key
  pub failed_over :
      failover h.config (Health.is_healthy h.health_checker) (allows_at h d.placement_key now) d
      ≡ go (record { decision = f.decision; failover_reason = f.failover_reason })

release_then-ne-forwards :
    (h : Handler) (key : String) (outcome : Begun) (f : Flight)
    → outcome ≢ forwards f
    → (release_then h key outcome).1 ≢ forwards f
unfolding release_then
release_then-ne-forwards h key outcome f n e =
    elim (Option-cases (Limits.release h.limits_manager key)) [
      | inl blocked ↦ ground (arith, blocked, e)
      | inr (l, freed) ↦ n (rw (freed, release_then) at e)
    ]

launch-forwards :
    (h : Handler) (r : Request) (d : RoutingDecision) (state : Circuit.State) (v : Verdict)
    (f : Flight)
    → (launch h r d state v).1 ≡ forwards f
    → (f.acquired ≡ d.placement_key)
      × (v ≡ go (record { decision = f.decision; failover_reason = f.failover_reason }))
unfolding launch
launch-forwards h r d state (go a) f e = ground arith
launch-forwards h r d state refuse f e =
    absurd (release_then-ne-forwards h d.placement_key _ f (λ x. ground (arith, x)) e)
launch-forwards h r d state crash f e =
    absurd (release_then-ne-forwards h d.placement_key _ f (λ x. ground (arith, x)) e)

begin_admitted-forwards :
    (h : Handler) (r : Request) (now : ℕ) (d : RoutingDecision) (f : Flight)
    → (begin_admitted h r now d).1 ≡ forwards f
    → (f.acquired ≡ d.placement_key)
      × (failover h.config (Health.is_healthy h.health_checker) (allows_at h d.placement_key now) d
          ≡ go (record { decision = f.decision; failover_reason = f.failover_reason }))
      × (body_error h r d.placement_key ≡ none)
unfolding begin_admitted begin_sized consult
begin_admitted-forwards h r now d f e = elim (Option-cases (body_error h r d.placement_key)) [
  | inl fits ↦
      let (acquired, over) =
        launch-forwards (consult h d.placement_key now).0 r d _ _ f
          (rw (fits, begin_admitted) at e) in
      (acquired, over, fits)
  | inr (x, large) ↦ absurd (
      release_then-ne-forwards h d.placement_key _ f (λ y. ground (arith, y))
        (rw (large, begin_admitted) at e))
]

begin_routed-forwards :
    (provider : ConfigProvider) (h : Handler) (r : Request) (now : ℕ)
    (d : Result RouteError RoutingDecision) (f : Flight)
    → r.routing_key ≢ ""
    → route provider r.routing_key ≡ d
    → (begin_routed h r now d).1 ≡ forwards f
    → Passed provider h r now f
unfolding begin_routed
begin_routed-forwards provider h r now (err x) f k q e = absurd (ground (arith, e))
begin_routed-forwards provider h r now panic f k q e = absurd (ground (arith, e))
begin_routed-forwards provider h r now (ok d) f k q e =
    let (limits, admitted) = Limits.try_acquire h.limits_manager d.placement_key in
    elim (Bool-cases admitted) [
      | inl free ↦
          let (acquired, over, fits) =
            begin_admitted-forwards (record h { limits_manager = limits }) r now d f
              (rw free at e) in
          record {
            d = d;
            keyed = k;
            routed = q;
            slot = free;
            sized = fits;
            acquired = acquired;
            failed_over = over;
          }
      | inr full ↦ absurd (ground (arith, full, e))
    ]

-- A request is forwarded only with a routing key, under the decision of `Route`, holding a slot of the
-- placement chosen there, with a body within that placement's limit; and its final decision and failover
-- reason are those of the failover code, for the answer of that placement's own breaker.
pub begin-Passed :
    (provider : ConfigProvider) (h : Handler) (r : Request) (now : ℕ) (f : Flight)
    → (begin provider h r now).1 ≡ forwards f
    → Passed provider h r now f
unfolding begin
begin-Passed provider h r now f e = elim (Bool-cases (r.routing_key == "")) [
  | inl missing ↦ absurd (ground (arith, missing, e))
  | inr given ↦
      begin_routed-forwards provider h r now (route provider r.routing_key) f
        (λ k. ground (arith, given, k, eq_iff r.routing_key "")) refl (rw given at e)
]

-- The outcome of an exchange as the breaker of the first placement is told.
abbrev pub told : Circuit.Breaker → Upstream → ℕ → Circuit.Breaker
told b no_response now = Circuit.record_failure b now
told b (responded status copied) now =
    if not copied || leb 500 status
    then Circuit.record_failure b now
    else Circuit.record_success b now

told-failed :
    (b : Circuit.Breaker) (u : Upstream) (now : ℕ)
    → (if failed u then Circuit.record_failure b now else Circuit.record_success b now)
      ≡ told b u now
unfolding failed
told-failed b no_response now = refl
told-failed b (responded status copied) now = refl

get_breaker_found :
    (m : Circuit.Manager) (key : String) (b : Circuit.Breaker) (now : ℕ)
    → lookup key m.breakers ≡ some b
    → Circuit.get_breaker m key now ≡ (m, b)
unfolding Circuit.get_breaker
get_breaker_found m key b now e = ground (arith, e)

respond-manager :
    (h : Handler) (f : Flight) (u : Upstream) (now : ℕ) (c : Circuit.Breaker)
    → lookup f.decision.placement_key h.circuit_manager.breakers ≡ some c
    → (respond h f u now).0.circuit_manager ≡ h.circuit_manager
unfolding respond
respond-manager h f no_response now c e = refl
respond-manager h f (responded status copied) now c e =
    ap (λ r. r.0) (get_breaker_found h.circuit_manager f.decision.placement_key c now e)

release_last-manager :
    (h h' : Handler) (acquired : String) (served served' : Served)
    → release_last h acquired served ≡ some (h', served')
    → h'.circuit_manager ≡ h.circuit_manager
unfolding release_last
release_last-manager h h' acquired served served' e = ground arith

record_outcome_found :
    (m : Circuit.Manager) (key : String) (bad : Bool) (now : ℕ) (b : Circuit.Breaker)
    → lookup key m.breakers ≡ some b
    → (record_outcome m key bad now).breakers
      ≡ insert key
          (if bad then Circuit.record_failure b now else Circuit.record_success b now)
          m.breakers
unfolding record_outcome Circuit.put_breaker
record_outcome_found m key bad now b e = rw (e, record_outcome)

-- The manager's map once the request is completed.
finish-breakers :
    (h h' : Handler) (f : Flight) (u : Upstream) (now : ℕ) (served : Served) (b c : Circuit.Breaker)
    → finish h f u now ≡ some (h', served)
    → lookup f.acquired h.circuit_manager.breakers ≡ some b
    → lookup f.decision.placement_key h.circuit_manager.breakers ≡ some c
    → h'.circuit_manager.breakers ≡ insert f.acquired (told b u now) h.circuit_manager.breakers
unfolding finish
finish-breakers h h' f u now served b c e known there =
    ap (λ m. m.breakers) (release_last-manager _ h' f.acquired _ served e)
    ∙ ap (λ m. (record_outcome m f.acquired (failed u) now).breakers)
        (respond-manager h f u now c there)
    ∙ record_outcome_found h.circuit_manager f.acquired (failed u) now b known
    ∙ ap (λ x. insert f.acquired x h.circuit_manager.breakers) (told-failed b u now)

-- Where both placements have breakers, completing a request tells its outcome to the breaker of the one
-- that the router chose first, also when another one answered it: that one's breaker is told nothing.
pub finish-told :
    (h h' : Handler) (f : Flight) (u : Upstream) (now : ℕ) (served : Served) (b c : Circuit.Breaker)
    → finish h f u now ≡ some (h', served)
    → lookup f.acquired h.circuit_manager.breakers ≡ some b
    → lookup f.decision.placement_key h.circuit_manager.breakers ≡ some c
    → f.acquired ≢ f.decision.placement_key
    → (lookup f.acquired h'.circuit_manager.breakers ≡ some (told b u now))
      × (lookup f.decision.placement_key h'.circuit_manager.breakers ≡ some c)
finish-told h h' f u now served b c e known there n =
    let m = finish-breakers h h' f u now served b c e known there in
    (
      ap (lookup f.acquired) m
          ∙ lookup-insert_self f.acquired (told b u now) h.circuit_manager.breakers,
      ap (lookup f.decision.placement_key) m
          ∙ lookup-insert_ne f.acquired f.decision.placement_key (told b u now)
              h.circuit_manager.breakers n
          ∙ there,
    )
