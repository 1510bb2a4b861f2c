-- ===== src/Proxy/Serve/Guards.antt =====
-- What the guards of ServeHTTP ask of a request, and what one that has passed them all has.
use cell_routing_from_scratc.Prelude.{
  ℕ, ◌≡◌, refl, ◌≢◌, ◌⊎◌, inl, inr, ◌↔◌, String, true, none, ok, arith, sym, subst, Bool-cases,
  Option-cases, lookup,
}
use cell_routing_from_scratc.Prelude.Int.{pos, ltb_ℤ, ◌≤ℤ◌}
use cell_routing_from_scratc.Routing.{ConfigProvider, RoutingDecision, route}
use cell_routing_from_scratc.Health
use cell_routing_from_scratc.Limits
use cell_routing_from_scratc.Limits.Size.{IsWithin, validate-IsWithin_iff}
use cell_routing_from_scratc.Proxy.{Handler}
use cell_routing_from_scratc.Proxy.Exchange.{Request, Flight, forwards}
use cell_routing_from_scratc.Proxy.Rerouting.Gone.{Way, failover-Way}
use cell_routing_from_scratc.Proxy.Serve.{begin, body_error}
use cell_routing_from_scratc.Proxy.Serve.Outcome.{allows_at, begin-Passed}

-- The request declares no body, or one within the limit that the configuration of this placement sets.
pub Fits : Handler → Request → String → Type 0
Fits h r placement =
    (r.content_length ≤ℤ pos 0)
    ⊎ IsWithin r.content_length (lookup placement h.limits_manager.config)

body_error-Fits_iff :
    (h : Handler) (r : Request) (placement : String)
    → (body_error h r placement ≡ none) ↔ Fits h r placement
unfolding body_error Fits
body_error-Fits_iff h r placement = elim (Bool-cases (ltb_ℤ (pos 0) r.content_length)) [
  | inr no_body ↦ (λ e. inl (ground (arith, no_body)), λ f. rw no_body refl)
  | inl has_body ↦
      let limit = validate-IsWithin_iff h.limits_manager placement r.content_length in
      (
        λ e. inr (limit.0 (rw has_body at e)),
        λ f. rw has_body (elim f [
          | inl none_there ↦ absurd (ground (arith, has_body, none_there))
          | inr small ↦ limit.1 small
        ]),
      )
]

try_acquire-config :
    (m : Limits.Manager) (placement : String) → (Limits.try_acquire m placement).0.config ≡ m.config
unfolding Limits.try_acquire
try_acquire-config m placement = elim (Option-cases (lookup placement m.semaphores)) [
  | inl free ↦ rw (free, Limits.try_acquire)
  | inr (sem, found) ↦ rw (found, Limits.try_acquire)
]

-- The handler once the placement's slot is taken, or not.
abbrev pub slotted : Handler → String → Handler
slotted h placement = record h {
  limits_manager = (Limits.try_acquire h.limits_manager placement).0;
}

pub slotted-Fits_iff :
    (h : Handler) (r : Request) (placement : String)
    → (body_error (slotted h placement) r placement ≡ none) ↔ Fits h r placement
unfolding Fits
slotted-Fits_iff h r placement =
    let same = try_acquire-config h.limits_manager placement in
    let fits = body_error-Fits_iff (slotted h placement) r placement in
    (
      λ e.
          subst (λ c. (r.content_length ≤ℤ pos 0) ⊎ IsWithin r.content_length (lookup placement c))
            same (fits.0 e),
      λ f. fits.1 (
          subst (λ c. (r.content_length ≤ℤ pos 0) ⊎ IsWithin r.content_length (lookup placement c))
            (sym same) f),
    )

-- A forwarded request has a key with a decision of `Route`, holds a slot of that decision's placement, has a
-- body that fits there, and has gone the way of the two failover blocks, as the placement's breaker and the
-- health checker answer.
pub record Cleared (provider : ConfigProvider) (h : Handler) (r : Request) (now : ℕ) (f : Flight)
    : Type 0 where
  pub d : RoutingDecision
  pub keyed : r.routing_key ≢ ""
  pub routed : route provider r.routing_key ≡ ok d
  pub slot : (Limits.try_acquire h.limits_manager d.placement_key).1 ≡ true
  pub fits : Fits h r d.placement_key
  pub acquired : f.acquired ≡ d.placement_key
  pub way :
      Way h.config
        (Health.is_healthy h.health_checker)
        (allows_at h d.placement_key now)
        d.placement_key
        f.decision.placement_key
        f.failover_reason

pub begin-Cleared :
    (provider : ConfigProvider) (h : Handler) (r : Request) (now : ℕ) (f : Flight)
    → (begin provider h r now).1 ≡ forwards f
    → Cleared provider h r now f
begin-Cleared provider h r now f e =
    let p = begin-Passed provider h r now f e in
    record {
      d = p.d;
      keyed = p.keyed;
      routed = p.routed;
      slot = p.slot;
      fits = (slotted-Fits_iff h r p.d.placement_key).0 p.sized;
      acquired = p.acquired;
      way =
          failover-Way h.config (Health.is_healthy h.health_checker)
            (allows_at h p.d.placement_key now) p.d
            (record { decision = f.decision; failover_reason = f.failover_reason }) p.failed_over;
    }
