-- ===== src/Routing/Decision.antt =====
-- What `Route` decides, described without its control flow.
use cell_routing_from_scratc.Prelude.{
  ◌≡◌, refl, ◌≢◌, ◌⊎◌, inl, inr, ◌↔◌, String, true, ◌==◌, Option, none, some, if◌then◌else◌, lookup,
  ok, err, panic, arith, eq_iff, Bool-cases, Option-cases,
}
use cell_routing_from_scratc.Routing.{
  ConfigProvider, RouteReason, dedicated, tier, default, RoutingDecision, RouteError, no_endpoint,
  is_tier, route, decide_endpoint, choose, is_found, determine_reason,
}

-- The shared tiers.
abbrev pub IsTier : String → Type 0
IsTier placement = (placement ≡ "tier1") ⊎ (placement ≡ "tier2") ⊎ (placement ≡ "tier3")

-- A key that is empty or not in the table goes to the default placement; any other goes to its entry,
-- as a tier if that is one and as a dedicated placement if not.
abbrev pub IsTarget : ConfigProvider → String → String → RouteReason → Type 0
IsTarget p key placement reason =
    (((key ≡ "") ⊎ (lookup key p.get_routing_table ≡ none))
      × (placement ≡ p.get_default_placement)
      × (reason ≡ default))
    ⊎ ((key ≢ "")
        × (lookup key p.get_routing_table ≡ some placement)
        × ((IsTier placement × (reason ≡ tier)) ⊎ ((¬ IsTier placement) × (reason ≡ dedicated))))

is_tier_iff : (placement : String) → (is_tier placement ≡ true) ↔ IsTier placement
unfolding is_tier
is_tier_iff placement =
    ground (arith, eq_iff placement "tier1", eq_iff placement "tier2", eq_iff placement "tier3")

label_iff :
    (placement : String) (reason : RouteReason)
    → (reason ≡ (if is_tier placement then tier else dedicated))
      ↔ ((IsTier placement × (reason ≡ tier)) ⊎ ((¬ IsTier placement) × (reason ≡ dedicated)))
label_iff placement reason = elim (Bool-cases (is_tier placement)) [
  | inl shared ↦ (
    λ e. inl ((is_tier_iff placement).0 shared, rw shared at e),
    elim [ inl (t, e) ↦ rw shared e | inr (n, e) ↦ absurd (n ((is_tier_iff placement).0 shared)) ],
  )
  | inr own ↦ (
    λ e. inr (λ t. cc (own, (is_tier_iff placement).1 t), rw own at e),
    elim [ inl (t, e) ↦ cc (own, (is_tier_iff placement).1 t) | inr (n, e) ↦ rw own e ],
  )
]

-- The placement and the reason that `Route` computes before it looks for the endpoint.
abbrev pub chosen : ConfigProvider → String → String
chosen p key = choose (lookup key p.get_routing_table) key p.get_default_placement

abbrev pub reason_of : ConfigProvider → String → RouteReason
reason_of p key = determine_reason key (chosen p key) (is_found (lookup key p.get_routing_table))

chosen-IsTarget :
    (p : ConfigProvider) (key : String) → IsTarget p key (chosen p key) (reason_of p key)
unfolding choose is_found determine_reason
chosen-IsTarget p key = elim (Option-cases (lookup key p.get_routing_table)) [
  | inl missing ↦ rw (missing, choose, determine_reason, is_found) (inl (inr refl, refl, refl))
  | inr (placement, found) ↦ elim (Bool-cases (key == "")) [
    | inl empty ↦
        rw (found, choose, determine_reason, is_found)
          (rw empty (inl (inl ((eq_iff key "").0 empty), refl, refl)))
    | inr given ↦
        rw (found, choose, determine_reason, is_found)
          (rw given
            (inr (λ e. cc (given, (eq_iff key "").1 e), refl, (label_iff placement _).0 refl)))
  ]
]

IsTarget-unique :
    (p : ConfigProvider) (key placement : String) (reason : RouteReason)
    → IsTarget p key placement reason
    → (placement ≡ chosen p key) × (reason ≡ reason_of p key)
unfolding choose is_found determine_reason
IsTarget-unique p key placement reason (inl (inl e, d, r)) = ground (arith, eq_iff key "")
IsTarget-unique p key placement reason (inl (inr e, d, r)) = ground arith
IsTarget-unique p key placement reason (inr (n, found, r)) =
    ground (arith, eq_iff key "", (label_iff placement reason).1 r)

decide_iff :
    (placement : String) (reason : RouteReason) (o : Option String) (d : RoutingDecision)
    → (decide_endpoint placement reason o ≡ ok d)
      ↔ ((d.placement_key ≡ placement) × (d.reason ≡ reason) × (o ≡ some d.endpoint_url))
unfolding decide_endpoint
decide_iff placement reason none d = ground arith
decide_iff placement reason (some url) d = ground arith

-- `Route` returns a decision exactly if its placement and reason are the target of the key and its URL
-- is that placement's endpoint.
pub route-IsTarget_iff :
    (p : ConfigProvider) (key : String) (d : RoutingDecision)
    → (route p key ≡ ok d) ↔ (
        IsTarget p key d.placement_key d.reason
        × (lookup d.placement_key p.get_cell_endpoints ≡ some d.endpoint_url))
unfolding route
route-IsTarget_iff p key d = (
  λ e.
      let (same, reason, served) = (decide_iff (chosen p key) (reason_of p key) _ d).0 e in
      (rw (same, reason) (chosen-IsTarget p key), rw same served),
  λ h.
      let (same, reason) = IsTarget-unique p key d.placement_key d.reason h.0 in
      (decide_iff (chosen p key) (reason_of p key) _ d).1 (same, reason, rw same at (h.1)),
)

-- `Route` fails exactly if the target of the key has no endpoint, and names that target.
pub route-no_endpoint_iff :
    (p : ConfigProvider) (key : String) (e : RouteError)
    → (route p key ≡ err e)
      ↔ ((e ≡ no_endpoint (chosen p key)) × (lookup (chosen p key) p.get_cell_endpoints ≡ none))
unfolding route decide_endpoint
route-no_endpoint_iff p key e = elim (Option-cases (lookup (chosen p key) p.get_cell_endpoints)) [
  | inl missing ↦ ground (arith, missing)
  | inr (url, found) ↦ ground (arith, found)
]

-- Route does not panic.
pub route-ne-panic : (r : ConfigProvider) (key : String) → route r key ≢ panic
unfolding route
route-ne-panic r key e =
    elim (Option-cases (
      lookup (choose (lookup key r.get_routing_table) key r.get_default_placement)
        r.get_cell_endpoints)) [
          | inl missing ↦ ground (arith, missing, e)
          | inr (url, found) ↦ ground (arith, found, e)
        ]
