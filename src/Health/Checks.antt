-- ===== src/Health/Checks.antt =====
-- What a health check changes, and what registration leaves alone.
use cell_routing_from_scratc.Prelude.{
  ℕ, ◌<◌, ◌≡◌, refl, ◌≢◌, inl, inr, String, Bool, true, false, Option, none, some, List, [], ◌∷◌,
  arith, ◌&&◌, leb, ltb, lookup, length, lookup-insert, lookup-delete_self, lookup-insert_self,
  eq_iff, Option-cases, ap, sym, ◌∙◌, get_elem?, insert, get_elem?-set_self, get_elem?-set_ne,
  get_elem?-append_left, get_elem?-append_last, get_elem?-lt,
}
use cell_routing_from_scratc.Health.{
  State, healthy, CheckConfig, new_checker, Checker, EndpointHealth, CheckOutcome, responded,
  register_endpoint, register_new, unregister_endpoint, perform_check, is_healthy, is_healthy_state,
  state_at, set_state, state_of,
}
use cell_routing_from_scratc.Health.Store.{IsSound, unregister_endpoint-IsSound}

-- The object of one address after a write to another or to it.
state_at-set_self :
    (heap : List EndpointHealth) (a : ℕ) (state : State) (now : ℕ)
    → a < length heap
    → state_at (set_state heap a state now) (some a) ≡ state
unfolding set_state state_at
state_at-set_self heap a state now h =
    let (x, found) = get_elem?-lt heap a h in
    ground
      (arith, found, get_elem?-set_self heap a (record x { state = state; last_check = now }) h)

state_at-set_ne :
    (heap : List EndpointHealth) (a b : ℕ) (state : State) (now : ℕ)
    → a ≢ b
    → state_at (set_state heap a state now) (some b) ≡ state_at heap (some b)
unfolding set_state state_at
state_at-set_ne heap a b state now h = elim (Option-cases (get_elem? heap a)) [
  | inl e ↦ ground (arith, e)
  | inr (x, e) ↦
      ground (arith, e, get_elem?-set_ne heap a b (record x { state = state; last_check = now }) h)
]

-- Whether a check found its endpoint well: it answered with a 2xx status.
abbrev pub is_success : CheckOutcome → Bool
is_success (responded status) = leb 200 status && ltb status 300
is_success _ = false

is_healthy-state_of : (o : CheckOutcome) → is_healthy_state (state_of o) ≡ is_success o
unfolding is_healthy_state state_of
is_healthy-state_of (responded status) = ground arith
is_healthy-state_of _ = refl

-- A check that addresses nothing of this placement's leaves its verdict.
check_elsewhere :
    (c : Checker) (a : ℕ) (outcome : CheckOutcome) (now : ℕ) (key : String)
    → lookup key c.endpoints ≢ some a
    → is_healthy (perform_check c a outcome now) key ≡ is_healthy c key
unfolding is_healthy perform_check
check_elsewhere c a outcome now key h = ap is_healthy_state (other_state (lookup key c.endpoints) h)
  where
    other_state :
        (o : Option ℕ)
        → o ≢ some a
        → state_at (set_state c.heap a (state_of outcome) now) o ≡ state_at c.heap o
    other_state none n = refl
    other_state (some b) n =
        state_at-set_ne c.heap a b (state_of outcome) now (λ e. n (ap some (sym e)))

-- After one check of a placement its verdict is the outcome of that check alone: healthy exactly if the
-- endpoint answered with a 2xx status. No other placement's verdict changes.
pub perform_check-is_healthy :
    (c : Checker) (key other : String) (a : ℕ) (outcome : CheckOutcome) (now : ℕ)
    → IsSound c
    → lookup key c.endpoints ≡ some a
    → key ≢ other
    → (is_healthy (perform_check c a outcome now) key ≡ is_success outcome)
      × (is_healthy (perform_check c a outcome now) other ≡ is_healthy c other)
unfolding is_healthy perform_check
perform_check-is_healthy c key other a outcome now s e n = (
  ap (λ o. is_healthy_state (state_at (set_state c.heap a (state_of outcome) now) o)) e
      ∙ ap is_healthy_state (state_at-set_self c.heap a (state_of outcome) now (s.valid key a e))
      ∙ is_healthy-state_of outcome,
  check_elsewhere c a outcome now other (λ f. n (s.apart key other a e f)),
)

abbrev new_endpoint : String → EndpointHealth
new_endpoint url = record { url = url; state = healthy; last_check = 0 }

register_new-is_healthy :
    (c : Checker) (key url other : String) (found : Option ℕ)
    → lookup key c.endpoints ≡ found
    → IsSound c
    → is_healthy (register_new c key url found) other ≡ is_healthy c other
unfolding is_healthy register_new state_at is_healthy_state
register_new-is_healthy c key url other (some a) e s = refl
register_new-is_healthy c key url other none e s = elim (Option-cases (lookup other c.endpoints)) [
  | inl unknown ↦ ground (
    arith,
    unknown,
    lookup-insert key other (length c.heap) c.endpoints,
    get_elem?-append_last c.heap (new_endpoint url),
  )
  | inr (b, known) ↦ ground (
    arith,
    known,
    e,
    eq_iff key other,
    lookup-insert key other (length c.heap) c.endpoints,
    get_elem?-append_left c.heap (new_endpoint url ∷ []) b (s.valid other b known),
  )
]

-- Registering a placement changes no verdict: a new one starts healthy, as it was while unknown, and
-- one that is there keeps its state.
pub register_endpoint-is_healthy :
    (c : Checker) (key url other : String)
    → IsSound c
    → is_healthy (register_endpoint c key url) other ≡ is_healthy c other
unfolding register_endpoint
register_endpoint-is_healthy c key url other s =
    register_new-is_healthy c key url other (lookup key c.endpoints) refl s

unknown_is_healthy :
    (c : Checker) (key : String) → lookup key c.endpoints ≡ none → is_healthy c key ≡ true
unfolding is_healthy state_at is_healthy_state
unknown_is_healthy c key e = ground (arith, e)

moved :
    (c : Checker) (key url : String)
    → lookup key (register_endpoint (unregister_endpoint c key) key url).endpoints
      ≡ some (length c.heap)
unfolding register_endpoint register_new unregister_endpoint
moved c key url = ground (
  arith,
  lookup-delete_self key c.endpoints,
  lookup-insert_self key (length c.heap) (unregister_endpoint c key).endpoints,
)

-- When a placement is taken out and registered again, the goroutine of its first registration goes on
-- checking the old object, and its outcomes do not reach the new one, which starts healthy.
pub stale_check :
    (c : Checker) (key url : String) (a : ℕ) (outcome : CheckOutcome) (now : ℕ)
    → IsSound c
    → lookup key c.endpoints ≡ some a
    → is_healthy
        (perform_check (register_endpoint (unregister_endpoint c key) key url) a outcome now)
        key
      ≡ true
stale_check c key url a outcome now s e =
    let old = unregister_endpoint c key in
    let gone : lookup key old.endpoints ≡ none =
      unfold unregister_endpoint in lookup-delete_self key c.endpoints in
    check_elsewhere (register_endpoint old key url) a outcome now key
      (λ f. ground (arith, moved c key url, f, s.valid key a e))
    ∙ register_endpoint-is_healthy old key url key (unregister_endpoint-IsSound c key s)
    ∙ unknown_is_healthy old key gone

-- Any sequence of checks, each of an address, with its outcome and its time.
pub after_checks : Checker → List (ℕ × CheckOutcome × ℕ) → Checker
unfolding perform_check
after_checks c [] = c
after_checks c ((a, outcome, now) ∷ checks) = after_checks (perform_check c a outcome now) checks

after_checks-endpoints :
    (c : Checker) (checks : List (ℕ × CheckOutcome × ℕ))
    → (after_checks c checks).endpoints ≡ c.endpoints
unfolding after_checks perform_check
after_checks-endpoints c [] = refl
after_checks-endpoints c ((a, outcome, now) ∷ checks) =
    after_checks-endpoints (perform_check c a outcome now) checks

-- A placement that the checker does not know counts as healthy, whatever is checked.
pub unknown-after_checks :
    (c : Checker) (key : String) (checks : List (ℕ × CheckOutcome × ℕ))
    → lookup key c.endpoints ≡ none
    → is_healthy (after_checks c checks) key ≡ true
unknown-after_checks c key checks e =
    unknown_is_healthy (after_checks c checks) key
      (ap (lookup key) (after_checks-endpoints c checks) ∙ e)

-- A new checker with one registration knows no other placement.
pub registered_alone :
    (config : CheckConfig) (key url other : String)
    → key ≢ other
    → lookup other (register_endpoint (new_checker config) key url).endpoints ≡ none
unfolding register_endpoint register_new new_checker lookup insert
registered_alone config key url other n = ground (arith, eq_iff key other)
