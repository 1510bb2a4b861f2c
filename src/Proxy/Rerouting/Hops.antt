-- ===== src/Proxy/Rerouting/Hops.antt =====
-- Where a request goes when its placement's circuit is open or its endpoint is unhealthy.
use cell_routing_from_scratc.Prelude.{
  ◌≡◌, refl, ◌≢◌, ◌⊎◌, inl, inr, String, Bool, true, false, ◌==◌, none, some, lookup, arith, ap,
  sym, subst, ◌∙◌, Bool-cases, Option-cases, eq_iff, lookup-All,
}
use cell_routing_from_scratc.Config.{Config, Library, get_placement_config}
use cell_routing_from_scratc.Config.Validity.{Known, IsValid, PlacementIsValid}
use cell_routing_from_scratc.Routing.{RoutingDecision}
use cell_routing_from_scratc.Proxy.Rerouting.{
  Fallback, no_fallback, to, nil_pointer, fallback_in, fallback_of, Attempt, go, refuse, redirect,
  after_circuit, after_health, failover,
}

-- The circuit breaker's part: from placement `p` to `q`.
abbrev pub CircuitHop : Config → Bool → String → String → String → Type 0
CircuitHop cfg allowed p q why =
    ((allowed ≡ true) × (q ≡ p) × (why ≡ ""))
    ⊎ ((allowed ≡ false) × (fallback_of cfg p ≡ to q) × (why ≡ "circuit_open"))

-- The health check's part: from placement `q`, with failover reason `why`, to `q'`, with `why'`.
abbrev pub HealthHop : Config → (String → Bool) → String → String → String → String → Type 0
HealthHop cfg healthy q q' why why' =
    ((healthy q ≡ true) × (q' ≡ q) × (why' ≡ why))
    ⊎ ((healthy q ≡ false) × (fallback_of cfg q ≡ to q') × (why' ≡ "upstream_unhealthy"))
    ⊎ ((healthy q ≡ false)
        × (fallback_of cfg q ≡ no_fallback)
        × (q' ≡ cfg.default_placement)
        × (((q' ≡ q) × (why' ≡ why)) ⊎ ((q' ≢ q) × (why' ≡ "upstream_unhealthy"))))

Fallback-cases :
    (f : Fallback) → (f ≡ no_fallback) ⊎ ((t : String) × (f ≡ to t)) ⊎ (f ≡ nil_pointer)
Fallback-cases no_fallback = inl refl
Fallback-cases (to t) = inr (inl (t, refl))
Fallback-cases nil_pointer = inr (inr refl)

module _ (lib : Library) (cfg : Config) (v : IsValid lib cfg) where
  -- The decision names the endpoint that the configuration gives for its placement.
  abbrev pub Serves : RoutingDecision → Type 0
  Serves d = lookup d.placement_key v.endpoints ≡ some d.endpoint_url

  fallback-Known : (p target : String) → fallback_of cfg p ≡ to target → Known v.endpoints target
  unfolding fallback_of fallback_in get_placement_config
  fallback-Known p target e = elim (Option-cases (lookup p cfg.placements)) [
    | inl missing ↦ absurd (ground (arith, missing))
    | inr (none, found) ↦ absurd (ground (arith, found))
    | inr (some placement, found) ↦
        let valid : PlacementIsValid lib v.endpoints (some placement) =
          lookup-All (λ x. PlacementIsValid lib v.endpoints x.1) p cfg.placements (some placement)
            v.placements_valid found in
        elim (valid.0) [
          | inl unset ↦ absurd (ground (arith, found, unset, eq_iff placement.fallback ""))
          | inr known ↦
              let same : placement.fallback ≡ target =
                ground (arith, found, eq_iff placement.fallback "") in
              subst (Known v.endpoints) same known
        ]
  ]

  pub not_nil : (p : String) → fallback_of cfg p ≢ nil_pointer
  unfolding fallback_of fallback_in get_placement_config
  not_nil p e = elim (Option-cases (lookup p cfg.placements)) [
    | inl missing ↦ ground (arith, missing)
    | inr (none, found) ↦
        lookup-All (λ x. PlacementIsValid lib v.endpoints x.1) p cfg.placements none
          v.placements_valid found
    | inr (some placement, found) ↦ ground (arith, found)
  ]

  redirect-Serves :
      (d : RoutingDecision) (target why : String)
      → Known v.endpoints target
      → (a : Attempt) × (redirect cfg d target why ≡ go a)
        × (a.decision.placement_key ≡ target)
        × (a.failover_reason ≡ why)
        × (a.decision.reason ≡ d.reason)
        × Serves a.decision
  unfolding redirect
  redirect-Serves d target why (url, found) = (
    record {
      decision = record d { placement_key = target; endpoint_url = url };
      failover_reason = why;
    },
    rw (v.served, redirect) (ground (arith, found)),
    refl,
    refl,
    refl,
    found,
  )

  circuit_total :
      (allowed : Bool) (d : RoutingDecision)
      → Serves d
      → ((after_circuit cfg allowed d ≡ refuse)
          × (allowed ≡ false)
          × (fallback_of cfg d.placement_key ≡ no_fallback))
        ⊎ ((a : Attempt) × (after_circuit cfg allowed d ≡ go a)
            × CircuitHop cfg allowed d.placement_key a.decision.placement_key a.failover_reason
            × Serves a.decision)
  unfolding after_circuit
  circuit_total true d s =
      inr (record { decision = d; failover_reason = "" }, refl, inl (refl, refl, refl), s)
  circuit_total false d s = elim (Fallback-cases (fallback_of cfg d.placement_key)) [
    | inl unset ↦ inl (rw (unset, after_circuit), refl, unset)
    | inr (inl (t, set)) ↦
        let (a, moved, same, why, reason, serves) =
          redirect-Serves d t "circuit_open" (fallback-Known d.placement_key t set) in
        inr (a, rw (set, after_circuit) moved, inr (refl, set ∙ ap to (sym same), why), serves)
    | inr (inr bad) ↦ absurd (not_nil d.placement_key bad)
  ]

  health_total :
      (healthy : String → Bool) (a : Attempt)
      → Serves a.decision
      → (a' : Attempt) × (after_health cfg (healthy a.decision.placement_key) a ≡ go a')
        × HealthHop cfg healthy a.decision.placement_key a'.decision.placement_key a.failover_reason
            a'.failover_reason
        × Serves a'.decision
  unfolding after_health
  health_total healthy a s = elim (Bool-cases (healthy a.decision.placement_key)) [
    | inl well ↦ (a, rw well, inl (well, refl, refl), s)
    | inr ill ↦ elim (Fallback-cases (fallback_of cfg a.decision.placement_key)) [
      | inl unset ↦ elim (Bool-cases (cfg.default_placement == a.decision.placement_key)) [
        | inl last ↦ (
          a,
          rw ill (rw (unset, after_health) (rw last)),
          inr (inr (ill, unset, sym ((eq_iff _ _).0 last), inl (refl, refl))),
          s,
        )
        | inr other ↦
            let (a', moved, same, why, reason, serves) =
              redirect-Serves a.decision cfg.default_placement "upstream_unhealthy"
                v.default_known in
            (
              a',
              rw ill (rw (unset, after_health) (rw other moved)),
              inr (
                  inr (
                    ill,
                    unset,
                    same,
                    inr (
                      λ e. ground (
                        arith,
                        other,
                        same,
                        e,
                        eq_iff cfg.default_placement a.decision.placement_key,
                      ),
                      why,
                    ),
                  )),
              serves,
            )
      ]
      | inr (inl (t, set)) ↦
          let (a', moved, same, why, reason, serves) =
            redirect-Serves a.decision t "upstream_unhealthy"
              (fallback-Known a.decision.placement_key t set) in
          (
            a',
            rw ill (rw (set, after_health) moved),
            inr (inl (ill, set ∙ ap to (sym same), why)),
            serves,
          )
      | inr (inr bad) ↦ absurd (not_nil a.decision.placement_key bad)
    ]
  ]

  -- Under a valid configuration, a decision that names its endpoint is refused exactly where the circuit
  -- is open and there is no fallback; the default placement is not asked then. Otherwise the request goes by at most one hop to the fallback for the
  -- open circuit and one more, to the next fallback or else the default placement, for an unhealthy
  -- endpoint, and the decision names the endpoint of the placement that it ends at. It never panics.
  pub failover_lem :
      (healthy : String → Bool) (allowed : Bool) (d : RoutingDecision)
      → Serves d
      → ((failover cfg healthy allowed d ≡ refuse)
          × (allowed ≡ false)
          × (fallback_of cfg d.placement_key ≡ no_fallback))
        ⊎ ((a : Attempt) × (failover cfg healthy allowed d ≡ go a)
            × ((q : String) × (why : String) × CircuitHop cfg allowed d.placement_key q why
                × HealthHop cfg healthy q a.decision.placement_key why a.failover_reason)
            × Serves a.decision)
  unfolding failover
  failover_lem healthy allowed d s = elim (circuit_total allowed d s) [
    | inl (stopped, closed, unset) ↦ inl (rw (stopped, failover), closed, unset)
    | inr (a, first, hop, serves) ↦
        let (a', second, hop', serves') = health_total healthy a serves in
        inr (
          a',
          rw (first, failover) second,
          (a.decision.placement_key, a.failover_reason, hop, hop'),
          serves',
        )
  ]
