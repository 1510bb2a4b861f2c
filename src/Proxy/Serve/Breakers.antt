-- ===== src/Proxy/Serve/Breakers.antt =====
-- What the two parts of ServeHTTP do to the breaker of a placement.
use cell_routing_from_scratc.Prelude.{
  ℕ, ◌≡◌, refl, ◌⊎◌, inl, inr, String, Bool, true, ◌==◌, Option, some, if◌then◌else◌, lookup,
  lookup-insert, Result, ok, err, panic, arith, ap, ◌∙◌, sym, subst, Bool-cases, Option-cases,
  eq_iff, not, ◌||◌, leb,
}
use cell_routing_from_scratc.Routing.{ConfigProvider, RoutingDecision, RouteError, route}
use cell_routing_from_scratc.Circuit
use cell_routing_from_scratc.Circuit.{allows, succeeds, fails}
use cell_routing_from_scratc.Circuit.Registry.{or_new, get_breaker_lem}
use cell_routing_from_scratc.Limits
use cell_routing_from_scratc.Proxy.{Handler}
use cell_routing_from_scratc.Proxy.Exchange.{Request, Served, Flight, Begun}
use cell_routing_from_scratc.Proxy.Rerouting.{Verdict, go, refuse, crash}
use cell_routing_from_scratc.Proxy.Serve.{
  release_then, launch, begin_sized, begin_admitted, begin_routed, begin, consult, body_error,
  Upstream, finish, release_last, respond, no_response, responded, record_outcome, failed,
}

abbrev pub breaker_of : Handler → String → Option Circuit.Breaker
breaker_of h key = lookup key h.circuit_manager.breakers

-- The breaker as it was, or after a call of Allow.
abbrev pub Asked : ℕ → Circuit.Breaker → Option Circuit.Breaker → Type 0
Asked now b after = (after ≡ some b) ⊎ (after ≡ some (Circuit.step b (now, allows)))

release_then-breakers :
    (h : Handler) (key : String) (outcome : Begun)
    → (release_then h key outcome).0.circuit_manager ≡ h.circuit_manager
unfolding release_then
release_then-breakers h key outcome = elim (Option-cases (Limits.release h.limits_manager key)) [
  | inl blocked ↦ ground (arith, blocked)
  | inr (l, freed) ↦ ground (arith, freed)
]

launch-breakers :
    (h : Handler) (r : Request) (d : RoutingDecision) (state : Circuit.State) (v : Verdict)
    → (launch h r d state v).0.circuit_manager ≡ h.circuit_manager
unfolding launch
launch-breakers h r d state (go a) = refl
launch-breakers h r d state refuse = release_then-breakers h d.placement_key _
launch-breakers h r d state crash = release_then-breakers h d.placement_key _

pub get_breaker-found :
    (m : Circuit.Manager) (key : String) (now : ℕ) (b : Circuit.Breaker)
    → lookup key m.breakers ≡ some b
    → (Circuit.get_breaker m key now).1 ≡ b
get_breaker-found m key now b e = (get_breaker_lem m key key now now).0 ∙ ap (or_new m key now) e

lookup-get_breaker :
    (m : Circuit.Manager) (key other : String) (now : ℕ) (b : Circuit.Breaker)
    → lookup other m.breakers ≡ some b
    → lookup other (Circuit.get_breaker m key now).0.breakers ≡ some b
lookup-get_breaker m key other now b e = elim (Bool-cases (key == other)) [
  | inl same ↦
      let k : key ≡ other = (eq_iff key other).0 same in
      (get_breaker_lem m key other now now).1
      ∙ rw same
          (ap (λ x. some x) (get_breaker-found m key now b (ap (λ x. lookup x m.breakers) k ∙ e)))
  | inr differ ↦ (get_breaker_lem m key other now now).1 ∙ rw differ e
]

consult-Asked :
    (h : Handler) (key other : String) (now : ℕ) (b : Circuit.Breaker)
    → breaker_of h other ≡ some b
    → Asked now b (breaker_of (consult h key now).0 other)
unfolding consult Circuit.put_breaker Circuit.step
consult-Asked h key other now b e =
    let m = Circuit.get_breaker h.circuit_manager key now in
    let put = lookup-insert key other (Circuit.allow m.1 now).0 m.0.breakers in
    elim (Bool-cases (key == other)) [
      | inl same ↦
          let k : key ≡ other = (eq_iff key other).0 same in
          let own = get_breaker-found h.circuit_manager key now b (ap (breaker_of h) k ∙ e) in
          inr (put ∙ rw same (ap (λ x. some (Circuit.allow x now).0) own))
      | inr differ ↦ inl (put ∙ rw differ (lookup-get_breaker h.circuit_manager key other now b e))
    ]

begin_admitted-Asked :
    (h : Handler) (r : Request) (now : ℕ) (d : RoutingDecision) (key : String) (b : Circuit.Breaker)
    → breaker_of h key ≡ some b
    → Asked now b (breaker_of (begin_admitted h r now d).0 key)
unfolding begin_admitted begin_sized
begin_admitted-Asked h r now d key b e = elim (Option-cases (body_error h r d.placement_key)) [
  | inl fits ↦
      rw (fits, begin_admitted)
        (subst (λ m. Asked now b (lookup key m.breakers))
          (sym (launch-breakers (consult h d.placement_key now).0 r d _ _))
          (consult-Asked h d.placement_key key now b e))
  | inr (x, large) ↦
      rw (large, begin_admitted)
        (inl (
          ap (λ (m : Circuit.Manager). lookup key m.breakers)
            (release_then-breakers h d.placement_key _)
          ∙ e))
]

begin_routed-Asked :
    (h : Handler) (r : Request) (now : ℕ) (o : Result RouteError RoutingDecision) (key : String)
    (b : Circuit.Breaker)
    → breaker_of h key ≡ some b
    → Asked now b (breaker_of (begin_routed h r now o).0 key)
unfolding begin_routed
begin_routed-Asked h r now (err x) key b e = inl e
begin_routed-Asked h r now panic key b e = inl e
begin_routed-Asked h r now (ok d) key b e =
    let (limits, admitted) = Limits.try_acquire h.limits_manager d.placement_key in
    elim (Bool-cases admitted) [
      | inl free ↦
          rw free (begin_admitted-Asked (record h { limits_manager = limits }) r now d key b e)
      | inr busy ↦ rw busy (inl e)
    ]

-- A request that arrives asks a placement's breaker at most once, and does nothing else to it.
pub begin-Asked :
    (provider : ConfigProvider) (h : Handler) (r : Request) (now : ℕ) (key : String)
    (b : Circuit.Breaker)
    → breaker_of h key ≡ some b
    → Asked now b (breaker_of (begin provider h r now).0 key)
unfolding begin
begin-Asked provider h r now key b e = elim (Bool-cases (r.routing_key == "")) [
  | inl missing ↦ rw missing (inl e)
  | inr given ↦ rw given (begin_routed-Asked h r now (route provider r.routing_key) key b e)
]

-- Whether the outcome counts as a failure.
abbrev pub is_failure : Upstream → Bool
is_failure no_response = true
is_failure (responded status copied) = not copied || leb 500 status

-- The call that records the outcome.
abbrev pub outcome_call : Upstream → Circuit.Call
outcome_call u = if is_failure u then fails else succeeds

failed-eq : (u : Upstream) → failed u ≡ is_failure u
unfolding failed
failed-eq no_response = refl
failed-eq (responded status copied) = refl

respond-lookup :
    (h : Handler) (f : Flight) (u : Upstream) (now : ℕ) (key : String) (b : Circuit.Breaker)
    → breaker_of h key ≡ some b
    → breaker_of (respond h f u now).0 key ≡ some b
unfolding respond
respond-lookup h f no_response now key b e = e
respond-lookup h f (responded status copied) now key b e =
    lookup-get_breaker h.circuit_manager f.decision.placement_key key now b e

recorded :
    (b : Circuit.Breaker) (u : Upstream) (now : ℕ)
    → (if failed u then Circuit.record_failure b now else Circuit.record_success b now)
      ≡ Circuit.step b (now, outcome_call u)
unfolding Circuit.step
recorded b u now = elim (Bool-cases (is_failure u)) [
  | inl bad ↦ rw (failed-eq u) (rw bad refl)
  | inr well ↦ rw (failed-eq u) (rw well refl)
]

lookup-record_outcome :
    (m : Circuit.Manager) (acquired key : String) (u : Upstream) (now : ℕ) (b : Circuit.Breaker)
    → lookup key m.breakers ≡ some b
    → lookup key (record_outcome m acquired (failed u) now).breakers
      ≡ some (if acquired == key then Circuit.step b (now, outcome_call u) else b)
unfolding record_outcome Circuit.put_breaker
lookup-record_outcome m acquired key u now b e = elim (Option-cases (lookup acquired m.breakers)) [
  | inl missing ↦ elim (Bool-cases (acquired == key)) [
    | inl same ↦
        let k : acquired ≡ key = (eq_iff acquired key).0 same in
        absurd (ground (arith, sym missing ∙ ap (λ x. lookup x m.breakers) k ∙ e))
    | inr differ ↦ rw (missing, differ, record_outcome) e
  ]
  | inr (c, found) ↦
      let put = lookup-insert acquired key (Circuit.step c (now, outcome_call u)) m.breakers in
      rw (found, record_outcome)
        (rw (recorded c u now) (
          put ∙ elim (Bool-cases (acquired == key)) [
            | inl same ↦
                let k : acquired ≡ key = (eq_iff acquired key).0 same in
                let own : c ≡ b = ground (arith, sym found ∙ ap (λ x. lookup x m.breakers) k ∙ e) in
                rw (same, own) refl
            | inr differ ↦ rw differ e
          ]))
]

release_last-handler :
    (h h' : Handler) (acquired : String) (served served' : Served)
    → release_last h acquired served ≡ some (h', served')
    → h'.circuit_manager ≡ h.circuit_manager
unfolding release_last
release_last-handler h h' acquired served served' e = ground arith

-- A request that is completed records its outcome at the breaker of the placement whose slot it held, and
-- does nothing to any other breaker.
pub lookup-finish :
    (h h' : Handler) (f : Flight) (u : Upstream) (now : ℕ) (served : Served) (key : String)
    (b : Circuit.Breaker)
    → finish h f u now ≡ some (h', served)
    → breaker_of h key ≡ some b
    → breaker_of h' key
      ≡ some (if f.acquired == key then Circuit.step b (now, outcome_call u) else b)
unfolding finish
lookup-finish h h' f u now served key b e there =
    ap (λ m. lookup key m.breakers) (release_last-handler _ h' f.acquired _ served e)
    ∙ lookup-record_outcome (respond h f u now).0.circuit_manager f.acquired key u now b
        (respond-lookup h f u now key b there)
