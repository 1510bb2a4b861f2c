-- ===== src/Proxy/Serve/Slots.antt =====
-- The slots that requests hold, as ServeHTTP takes and returns them, in terms of Limits.Slots.
use cell_routing_from_scratc.Prelude.{
  ℕ, ◌≡◌, refl, inl, inr, String, Bool, true, false, ◌==◌, none, some, List, [], ◌∷◌, Result, ok,
  err, panic, arith, ap, subst, Bool-cases, Option-cases,
}
use cell_routing_from_scratc.Routing.{ConfigProvider, RoutingDecision, RouteError, route}
use cell_routing_from_scratc.Circuit
use cell_routing_from_scratc.Limits
use cell_routing_from_scratc.Limits.Slots.{
  System, admit, reject, finish as give_back, Reach, next, Built, start, release-ne-none,
}
use cell_routing_from_scratc.Proxy.{Handler}
use cell_routing_from_scratc.Proxy.Exchange.{
  Request, Served, Flight, Begun, answered, forwards, crashed, stuck,
}
use cell_routing_from_scratc.Proxy.Rerouting.{Verdict, go, refuse, crash}
use cell_routing_from_scratc.Proxy.Serve.{
  release_then, launch, begin_sized, begin_admitted, begin_routed, begin, consult, body_error,
  Upstream, finish, release_last, respond, no_response, responded,
}

-- The slots held after `begin`, when those of `held` were before.
abbrev pub holding : Begun → List String → List String
holding (forwards f) held = f.acquired ∷ held
holding (stuck acquired) held = acquired ∷ held
holding (answered s) held = held
holding crashed held = held

abbrev pub is_stuck : Begun → Bool
is_stuck (stuck acquired) = true
is_stuck _ = false

abbrev pub system : Handler → List String → System
system h held = record { manager = h.limits_manager; in_flight = held }

module _ {m : Limits.Manager} (built : Built m) where
  -- The slots are as some interleaving of Limits.Slots leaves them, and the request is not stuck.
  abbrev pub Fine : Handler × Begun → List String → Type 0
  Fine (h, b) held = Reach (start m) (system h (holding b held)) × (is_stuck b ≡ false)

  -- In each of the next lemmas the request holds its slot to begin with.
  release_then-Fine :
      (h : Handler) (held : List String) (key : String) (outcome : Begun)
      → holding outcome held ≡ held
      → is_stuck outcome ≡ false
      → Reach (start m) (system h (key ∷ held))
      → Fine (release_then h key outcome) held
  unfolding release_then
  release_then-Fine h held key outcome e n r =
      elim (Option-cases (Limits.release h.limits_manager key)) [
        | inl blocked ↦ absurd (release-ne-none [] held key built r refl blocked)
        | inr (limits, freed) ↦
            rw (freed, release_then) (rw e (next r (give_back [] held key limits refl freed)), n)
      ]

  launch-Fine :
      (h : Handler) (r : Request) (d : RoutingDecision) (state : Circuit.State) (v : Verdict)
      (held : List String)
      → Reach (start m) (system h (d.placement_key ∷ held))
      → Fine (launch h r d state v) held
  unfolding launch
  launch-Fine h r d state (go a) held p = (p, refl)
  launch-Fine h r d state refuse held p = release_then-Fine h held d.placement_key _ refl refl p
  launch-Fine h r d state crash held p =
      release_then-Fine h held d.placement_key crashed refl refl p

  begin_admitted-Fine :
      (h : Handler) (r : Request) (now : ℕ) (d : RoutingDecision) (held : List String)
      → Reach (start m) (system h (d.placement_key ∷ held))
      → Fine (begin_admitted h r now d) held
  unfolding begin_admitted begin_sized consult
  begin_admitted-Fine h r now d held p = elim (Option-cases (body_error h r d.placement_key)) [
    | inl fits ↦
        rw (fits, begin_admitted) (launch-Fine (consult h d.placement_key now).0 r d _ _ held p)
    | inr (e, large) ↦
        rw (large, begin_admitted) (release_then-Fine h held d.placement_key _ refl refl p)
  ]

  begin_routed-Fine :
      (h : Handler) (r : Request) (now : ℕ) (d : Result RouteError RoutingDecision)
      (held : List String)
      → Reach (start m) (system h held)
      → Fine (begin_routed h r now d) held
  unfolding begin_routed
  begin_routed-Fine h r now (err e) held p = (p, refl)
  begin_routed-Fine h r now panic held p = (p, refl)
  begin_routed-Fine h r now (ok d) held p =
      let (limits, admitted) = Limits.try_acquire h.limits_manager d.placement_key in
      elim (Bool-cases admitted) [
        | inl free ↦ rw free (
            begin_admitted-Fine (record h { limits_manager = limits }) r now d held
              (next p (admit d.placement_key limits (ap (λ b. (limits, b)) free))))
        | inr full ↦
            rw full (next p (reject d.placement_key limits (ap (λ b. (limits, b)) full)), refl)
      ]

  pub begin-Fine :
      (provider : ConfigProvider) (h : Handler) (r : Request) (now : ℕ) (held : List String)
      → Reach (start m) (system h held)
      → Fine (begin provider h r now) held
  unfolding begin
  begin-Fine provider h r now held p = elim (Bool-cases (r.routing_key == "")) [
    | inl missing ↦ rw missing (p, refl)
    | inr given ↦ rw given (begin_routed-Fine h r now (route provider r.routing_key) held p)
  ]

-- What proxyRequest does leaves the limits alone.
respond-limits :
    (h : Handler) (f : Flight) (u : Upstream) (now : ℕ)
    → (respond h f u now).0.limits_manager ≡ h.limits_manager
unfolding respond
respond-limits h f no_response now = refl
respond-limits h f (responded status copied) now = refl

release_last-eq-some :
    (h h' : Handler) (acquired : String) (served served' : Served)
    → release_last h acquired served ≡ some (h', served')
    → Limits.release h.limits_manager acquired ≡ some h'.limits_manager
unfolding release_last
release_last-eq-some h h' acquired served served' e = ground arith

release_last-eq-none :
    (h : Handler) (acquired : String) (served : Served)
    → release_last h acquired served ≡ none
    → Limits.release h.limits_manager acquired ≡ none
unfolding release_last
release_last-eq-none h acquired served e = ground arith

pub finish-release :
    (h h' : Handler) (f : Flight) (u : Upstream) (now : ℕ) (served : Served)
    → finish h f u now ≡ some (h', served)
    → Limits.release h.limits_manager f.acquired ≡ some h'.limits_manager
unfolding finish
finish-release h h' f u now served e =
    subst (λ l. Limits.release l f.acquired ≡ some h'.limits_manager) (respond-limits h f u now)
      (release_last-eq-some _ h' f.acquired _ served e)

pub finish-blocked :
    (h : Handler) (f : Flight) (u : Upstream) (now : ℕ)
    → finish h f u now ≡ none
    → Limits.release h.limits_manager f.acquired ≡ none
unfolding finish
finish-blocked h f u now e =
    subst (λ l. Limits.release l f.acquired ≡ none) (respond-limits h f u now)
      (release_last-eq-none _ f.acquired _ e)
