-- ===== src/Config/Validity.antt =====
-- What `Validate` accepts, described without its loops.
use cell_routing_from_scratc.Prelude.{
  ap, ◌∙◌, ◌≡◌, refl, ◌≢◌, ◌⊎◌, inl, inr, ◌↔◌, String, Bool, true, false, not, ◌||◌, deref, ◌==◌,
  Option, none, some, [], ◌∷◌, GoMap, lookup, Result, ok, err, panic, ◌>>=◌, ◌>>◌, require, or_fail,
  arith, eq_iff, All, Bool-cases, Option-cases,
}
use cell_routing_from_scratc.Config.{
  HealthCheckConfig, CircuitBreakerConfig, PlacementConfig, Config, ConfigError, invalid_url,
  unknown_default, Library, get_cell_endpoints, has, check_routes, check_urls, check_health,
  check_breaker, check_placement, check_placements, validate,
}

abbrev pub Known : GoMap String → String → Type 0
Known endpoints placement = (url : String) × (lookup placement endpoints ≡ some url)

-- A chain succeeds exactly if its steps do.
chain_iff {κ μ} :
    {P : Type κ} {Q : Type μ} (m k : Result ConfigError (Unit {0}))
    → (m ≡ ok tt) ↔ P
    → (k ≡ ok tt) ↔ Q
    → ((m >> k) ≡ ok tt) ↔ (P × Q)
chain_iff (ok tt) k p q = (λ e. (p.0 refl, q.0 e), λ h. q.1 h.1)
chain_iff (err e) k p q = (λ h. cc, λ h. absurd (not_ok (p.1 h.0)))
  where
    not_ok : {x : ConfigError} → ¬ (◌≡◌ {A = Result ConfigError (Unit {0})} (err x) (ok tt))
    not_ok h = ground (arith, h)
chain_iff panic k p q = (λ h. cc, λ h. cc (p.1 h.0))

require_iff {κ} :
    {P : Type κ} (b : Bool) (e : ConfigError) → (b ≡ true) ↔ P → (require b e ≡ ok tt) ↔ P
require_iff true e p = (λ _. p.0 refl, λ _. refl)
require_iff false e p = (λ h. cc, λ h. cc (p.1 h))

parse_iff :
    {A : Type 0} (o : Option A) (e : ConfigError) (k : Result ConfigError (Unit {0}))
    → ((or_fail o e >>= λ _. k) ≡ ok tt) ↔ ((o ≢ none) × (k ≡ ok tt))
parse_iff none e k = (λ h. cc, λ h. absurd (h.0 refl))
parse_iff (some a) e k = (λ h. (λ n. cc, h), λ h. h.1)

deref_iff :
    {A : Type 0} (o : Option A) (f : A → Result ConfigError (Unit {0}))
    → ((deref o >>= f) ≡ ok tt) ↔ ((a : A) × (o ≡ some a) × (f a ≡ ok tt))
deref_iff none f = (λ h. cc, λ h. cc (h.1))
deref_iff (some a) f = (λ h. (a, refl, h), λ h. let same : a ≡ h.0 = cc (h.1) in ap f same ∙ h.2)

nonempty_iff : (s : String) → (not (s == "") ≡ true) ↔ (s ≢ "")
nonempty_iff s = (λ h e. ground (arith, eq_iff s "", h, e), λ h. ground (arith, eq_iff s "", h))

has_iff : (key : String) (m : GoMap String) → (has key m ≡ true) ↔ Known m key
has_iff key m = elim (Option-cases (lookup key m)) [
  | inl e ↦ (λ h. absurd (ground (arith, e, h)), λ k. absurd (ground (arith, e, k.1)))
  | inr (url, e) ↦ (λ _. (url, e), λ _. rw (e, has))
]

module _ (lib : Library) where
  abbrev pub DurationsParse : HealthCheckConfig → Type 0
  DurationsParse h = (lib.parse_duration h.interval ≢ none) × (lib.parse_duration h.timeout ≢ none)

  abbrev pub HealthParses : Option HealthCheckConfig → Type 0
  HealthParses none = Unit
  HealthParses (some h) = DurationsParse h

  abbrev pub BreakerParses : Option CircuitBreakerConfig → Type 0
  BreakerParses none = Unit
  BreakerParses (some c) = lib.parse_duration c.timeout ≢ none

  abbrev pub PlacementIsValid : GoMap String → Option PlacementConfig → Type 0
  PlacementIsValid endpoints none = ⊥
  PlacementIsValid endpoints (some p) =
      ((p.fallback ≡ "") ⊎ Known endpoints p.fallback)
      × (HealthParses p.health_check × BreakerParses p.circuit_breaker)

  -- A valid configuration has a version and endpoints; the default placement and every placement of the
  -- routing table have an endpoint; every endpoint is a URL; no placement is nil, and each one's
  -- fallback, if any, has an endpoint and its durations parse.
  pub record IsValid (c : Config) : Type 0 where
    pub endpoints : GoMap String
    pub versioned : c.version ≢ ""
    pub served : get_cell_endpoints c ≡ some endpoints
    pub default_known : Known endpoints c.default_placement
    pub routes_known : All (λ e. Known endpoints e.1) c.routing_table
    pub urls_parse : All (λ e. lib.parse_url e.1 ≢ none) endpoints
    pub placements_valid : All (λ e. PlacementIsValid endpoints e.1) c.placements

  check_routes_iff :
      (endpoints table : GoMap String)
      → (check_routes lib endpoints table ≡ ok tt) ↔ All (λ e. Known endpoints e.1) table
  unfolding check_routes
  check_routes_iff endpoints [] = (λ _. tt, λ _. refl)
  check_routes_iff endpoints ((k, p) ∷ rest) =
      chain_iff _ _ (require_iff _ _ (has_iff p endpoints)) (check_routes_iff endpoints rest)

  check_urls_iff :
      (endpoints : GoMap String)
      → (check_urls lib endpoints ≡ ok tt) ↔ All (λ e. lib.parse_url e.1 ≢ none) endpoints
  unfolding check_urls
  check_urls_iff [] = (λ _. tt, λ _. refl)
  check_urls_iff ((k, url) ∷ rest) =
      let step = parse_iff (lib.parse_url url) (invalid_url k) (check_urls lib rest) in
      let ih = check_urls_iff rest in
      (λ e. let (p, q) = step.0 e in (p, ih.0 q), λ h. step.1 (h.0, ih.1 h.1))

  check_health_iff :
      (key : String) (h : Option HealthCheckConfig)
      → (check_health lib key h ≡ ok tt) ↔ HealthParses h
  unfolding check_health
  check_health_iff key none = (λ _. tt, λ _. refl)
  check_health_iff key (some h) =
      (λ e. (λ n. ground (arith, e, n), λ n. ground (arith, e, n)), λ p. ground (arith, p.0, p.1))

  check_breaker_iff :
      (key : String) (c : Option CircuitBreakerConfig)
      → (check_breaker lib key c ≡ ok tt) ↔ BreakerParses c
  unfolding check_breaker
  check_breaker_iff key none = (λ _. tt, λ _. refl)
  check_breaker_iff key (some c) = (λ e n. ground (arith, e, n), λ p. ground (arith, p))

  fallback_iff :
      (fallback : String) (endpoints : GoMap String)
      → (((fallback == "") || has fallback endpoints) ≡ true)
        ↔ ((fallback ≡ "") ⊎ Known endpoints fallback)
  fallback_iff fallback endpoints = elim (Bool-cases (fallback == "")) [
    | inl unset ↦ (λ _. inl ((eq_iff fallback "").0 unset), λ _. rw unset)
    | inr given ↦ (
      λ e. inr ((has_iff fallback endpoints).0 (rw given at e)),
      elim [
        | inl unset ↦ ground (arith, eq_iff fallback "")
        | inr known ↦ rw given ((has_iff fallback endpoints).1 known)
      ],
    )
  ]

  check_placement_iff :
      (endpoints : GoMap String) (key : String) (p : Option PlacementConfig)
      → (check_placement lib endpoints key p ≡ ok tt) ↔ PlacementIsValid endpoints p
  unfolding check_placement
  check_placement_iff endpoints key none = (λ h. cc, λ h. absurd h)
  check_placement_iff endpoints key (some p) =
      chain_iff _ _ (require_iff _ _ (fallback_iff p.fallback endpoints)) (
        chain_iff _ _ (check_health_iff key p.health_check)
          (check_breaker_iff key p.circuit_breaker))

  check_placements_iff :
      (endpoints : GoMap String) (ps : GoMap (Option PlacementConfig))
      → (check_placements lib endpoints ps ≡ ok tt) ↔ All (λ e. PlacementIsValid endpoints e.1) ps
  unfolding check_placements
  check_placements_iff endpoints [] = (λ _. tt, λ _. refl)
  check_placements_iff endpoints ((key, p) ∷ rest) =
      chain_iff _ _ (check_placement_iff endpoints key p) (check_placements_iff endpoints rest)

  validate_parts :
      (c : Config)
      → (validate lib c ≡ ok tt) ↔ (
          (c.version ≢ "")
          × ((endpoints : GoMap String) × (get_cell_endpoints c ≡ some endpoints)
              × ((require (has c.default_placement endpoints) (unknown_default c.default_placement)
                    >> (check_routes lib endpoints c.routing_table
                        >> (check_urls lib endpoints
                            >> check_placements lib endpoints c.placements)))
                  ≡ ok tt)))
  unfolding validate
  validate_parts c =
      chain_iff _ _ (require_iff _ _ (nonempty_iff c.version)) (deref_iff (get_cell_endpoints c) _)

  checks_iff :
      (c : Config) (endpoints : GoMap String)
      → ((require (has c.default_placement endpoints) (unknown_default c.default_placement)
            >> (check_routes lib endpoints c.routing_table
                >> (check_urls lib endpoints >> check_placements lib endpoints c.placements)))
          ≡ ok tt)
        ↔ (Known endpoints c.default_placement
            × (All (λ e. Known endpoints e.1) c.routing_table
                × (All (λ e. lib.parse_url e.1 ≢ none) endpoints
                    × All (λ e. PlacementIsValid endpoints e.1) c.placements)))
  checks_iff c endpoints = chain_iff _ _ (require_iff _ _ (has_iff c.default_placement endpoints)) (
      chain_iff _ _ (check_routes_iff endpoints c.routing_table)
        (chain_iff _ _ (check_urls_iff endpoints) (check_placements_iff endpoints c.placements)))

  validate-IsValid : (c : Config) → validate lib c ≡ ok tt → IsValid c
  validate-IsValid c e =
      let (versioned, (endpoints, served, checked)) = (validate_parts c).0 e in
      let (d, (r, (u, p))) = (checks_iff c endpoints).0 checked in
      record {
        endpoints = endpoints;
        versioned = versioned;
        served = served;
        default_known = d;
        routes_known = r;
        urls_parse = u;
        placements_valid = p;
      }

  IsValid-validate : (c : Config) → IsValid c → validate lib c ≡ ok tt
  IsValid-validate c v = (validate_parts c).1 (
    v.versioned,
    (
      v.endpoints,
      v.served,
      (checks_iff c v.endpoints).1
          (v.default_known, (v.routes_known, (v.urls_parse, v.placements_valid))),
    ),
  )

  -- `Validate` returns no error, and does not panic, exactly on the valid configurations, in whatever
  -- order its loops visit the maps. What it asks of an endpoint URL is that url.Parse accepts it, of any
  -- scheme, and not that it is an HTTP or HTTPS URL.
  pub validate-IsValid_iff : (c : Config) → (validate lib c ≡ ok tt) ↔ IsValid c
  validate-IsValid_iff c = (validate-IsValid c, IsValid-validate c)
