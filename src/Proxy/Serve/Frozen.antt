-- ===== src/Proxy/Serve/Frozen.antt =====
-- The configuration and the health checkers of the handler, which ServeHTTP reads and never writes.
use cell_routing_from_scratc.Prelude.{
  ℕ, ◌≡◌, refl, String, ◌==◌, some, Result, ok, err, panic, arith, ◌∙◌, Bool-cases, Option-cases,
  inl, inr, ap, List,
}
use cell_routing_from_scratc.Routing.{ConfigProvider, RoutingDecision, RouteError, route}
use cell_routing_from_scratc.Circuit
use cell_routing_from_scratc.Limits
use cell_routing_from_scratc.Proxy.{Handler}
use cell_routing_from_scratc.Proxy.Exchange.{Request, Served, Flight, Begun}
use cell_routing_from_scratc.Proxy.Rerouting.{Verdict, go, refuse, crash}
use cell_routing_from_scratc.Proxy.Serve.{
  release_then, launch, consult, begin_sized, body_error, begin_admitted, begin_routed, begin,
  Upstream, no_response, responded, respond, finish, release_last,
}
use cell_routing_from_scratc.Config.{Config}
use cell_routing_from_scratc.Health

abbrev pub kept : Handler → Config × Health.Checker × List Health.Checker
kept h = (h.config, h.health_checker, h.retired)

release_then-kept :
    (h : Handler) (acquired : String) (outcome : Begun)
    → kept (release_then h acquired outcome).0 ≡ kept h
unfolding release_then
release_then-kept h acquired outcome =
    elim (Option-cases (Limits.release h.limits_manager acquired)) [
      | inl blocked ↦ ground (arith, blocked)
      | inr (limits, freed) ↦ ground (arith, freed)
    ]

launch-kept :
    (h : Handler) (r : Request) (d : RoutingDecision) (state : Circuit.State) (v : Verdict)
    → kept (launch h r d state v).0 ≡ kept h
unfolding launch
launch-kept h r d state (go a) = refl
launch-kept h r d state refuse = release_then-kept h d.placement_key _
launch-kept h r d state crash = release_then-kept h d.placement_key _

begin_admitted-kept :
    (h : Handler) (r : Request) (now : ℕ) (d : RoutingDecision)
    → kept (begin_admitted h r now d).0 ≡ kept h
unfolding begin_admitted begin_sized consult
begin_admitted-kept h r now d = elim (Option-cases (body_error h r d.placement_key)) [
  | inl fits ↦ rw (fits, begin_admitted) (launch-kept (consult h d.placement_key now).0 r d _ _)
  | inr (x, large) ↦ rw (large, begin_admitted) (release_then-kept h d.placement_key _)
]

begin_routed-kept :
    (h : Handler) (r : Request) (now : ℕ) (d : Result RouteError RoutingDecision)
    → kept (begin_routed h r now d).0 ≡ kept h
unfolding begin_routed
begin_routed-kept h r now (err x) = refl
begin_routed-kept h r now panic = refl
begin_routed-kept h r now (ok d) =
    let (limits, admitted) = Limits.try_acquire h.limits_manager d.placement_key in
    elim (Bool-cases admitted) [
      | inl free ↦ rw free (begin_admitted-kept (record h { limits_manager = limits }) r now d)
      | inr full ↦ ground (arith, full)
    ]

pub begin-kept :
    (provider : ConfigProvider) (h : Handler) (r : Request) (now : ℕ)
    → kept (begin provider h r now).0 ≡ kept h
unfolding begin
begin-kept provider h r now = elim (Bool-cases (r.routing_key == "")) [
  | inl missing ↦ ground (arith, missing)
  | inr given ↦ rw given (begin_routed-kept h r now (route provider r.routing_key))
]

release_last-kept :
    (h h' : Handler) (acquired : String) (served served' : Served)
    → release_last h acquired served ≡ some (h', served')
    → kept h' ≡ kept h
unfolding release_last
release_last-kept h h' acquired served served' e = ground arith

respond-kept :
    (h : Handler) (f : Flight) (u : Upstream) (now : ℕ) → kept (respond h f u now).0 ≡ kept h
unfolding respond
respond-kept h f no_response now = refl
respond-kept h f (responded status copied) now = refl

pub finish-kept :
    (h h' : Handler) (f : Flight) (u : Upstream) (now : ℕ) (served : Served)
    → finish h f u now ≡ some (h', served)
    → kept h' ≡ kept h
unfolding finish
finish-kept h h' f u now served e =
    release_last-kept _ h' f.acquired _ served e ∙ respond-kept h f u now

pub begin-config :
    (provider : ConfigProvider) (h : Handler) (r : Request) (now : ℕ)
    → (begin provider h r now).0.config ≡ h.config
begin-config provider h r now = ap (λ x. x.0) (begin-kept provider h r now)

pub finish-config :
    (h h' : Handler) (f : Flight) (u : Upstream) (now : ℕ) (served : Served)
    → finish h f u now ≡ some (h', served)
    → h'.config ≡ h.config
finish-config h h' f u now served e = ap (λ x. x.0) (finish-kept h h' f u now served e)
