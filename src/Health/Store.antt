-- ===== src/Health/Store.antt =====
-- internal/health/checker.go: the addresses in the checker's map.
use cell_routing_from_scratc.Prelude.{
  ℕ, ◌<◌, ◌≡◌, refl, inl, inr, String, Option, none, some, List, [], ◌∷◌, arith, lookup, length,
  length-append, length-set, lookup-insert, lookup-delete, eq_iff, Option-cases, get_elem?,
}
use cell_routing_from_scratc.Health.{
  Checker, EndpointHealth, CheckConfig, CheckOutcome, new_checker, register_endpoint,
  unregister_endpoint, perform_check, set_state, state_of, register_new, healthy, Event, registers,
  unregisters, checks, happen, history,
}

-- Every address in the map is of an object, and no two placements share one.
pub record IsSound (c : Checker) : Type 0 where
  pub valid : (key : String) (a : ℕ) → lookup key c.endpoints ≡ some a → a < length c.heap
  pub apart :
      (key other : String) (a : ℕ)
      → lookup key c.endpoints ≡ some a
      → lookup other c.endpoints ≡ some a
      → key ≡ other

pub new_checker-IsSound : (config : CheckConfig) → IsSound (new_checker config)
unfolding new_checker lookup
new_checker-IsSound config = record { valid = λ key a e. cc; apart = λ key other a e f. cc }

register_new-IsSound :
    (c : Checker) (key url : String) (found : Option ℕ)
    → lookup key c.endpoints ≡ found
    → IsSound c
    → IsSound (register_new c key url found)
unfolding register_new
register_new-IsSound c key url (some a) e s = s
register_new-IsSound c key url none e s = record {
  valid = λ k a f. ground (
    arith,
    lookup-insert key k (length c.heap) c.endpoints,
    s.valid k a,
    length-append c.heap (record { url = url; state = healthy; last_check = 0 } ∷ []),
  );
  apart = λ k j a f g. ground (
    arith,
    lookup-insert key k (length c.heap) c.endpoints,
    lookup-insert key j (length c.heap) c.endpoints,
    eq_iff key k,
    eq_iff key j,
    s.apart k j a,
    s.valid k a,
    s.valid j a,
  );
}

pub register_endpoint-IsSound :
    (c : Checker) (key url : String) → IsSound c → IsSound (register_endpoint c key url)
unfolding register_endpoint
register_endpoint-IsSound c key url s = register_new-IsSound c key url _ refl s

pub unregister_endpoint-IsSound :
    (c : Checker) (key : String) → IsSound c → IsSound (unregister_endpoint c key)
unfolding unregister_endpoint
unregister_endpoint-IsSound c key s = record {
  valid = λ other a e. ground (arith, lookup-delete key other c.endpoints, s.valid other a);
  apart = λ k j a e f.
      ground
        (arith, lookup-delete key k c.endpoints, lookup-delete key j c.endpoints, s.apart k j a);
}

length-set_state :
    (heap : List EndpointHealth) (a : ℕ) (outcome : CheckOutcome) (now : ℕ)
    → length (set_state heap a (state_of outcome) now) ≡ length heap
unfolding set_state
length-set_state heap a outcome now = elim (Option-cases (get_elem? heap a)) [
  | inl e ↦ rw (e, set_state)
  | inr (x, e) ↦ rw (e, set_state) (length-set heap a _)
]

pub perform_check-IsSound :
    (c : Checker) (a : ℕ) (outcome : CheckOutcome) (now : ℕ)
    → IsSound c
    → IsSound (perform_check c a outcome now)
unfolding perform_check
perform_check-IsSound c a outcome now s = record {
  valid = λ key b e. rw (length-set_state c.heap a outcome now) (s.valid key b e);
  apart = s.apart;
}

happen-IsSound : (c : Checker) (e : Event) → IsSound c → IsSound (happen c e)
unfolding happen
happen-IsSound c (registers key url) s = register_endpoint-IsSound c key url s
happen-IsSound c (unregisters key) s = unregister_endpoint-IsSound c key s
happen-IsSound c (checks a outcome now) s = perform_check-IsSound c a outcome now s

-- Whatever happens to a sound checker, in any order and with checks of unregistered objects among it,
-- every address in its map stays that of an object, and no two placements come to share one.
pub history-IsSound : (c : Checker) (es : List Event) → IsSound c → IsSound (history c es)
unfolding history
history-IsSound c [] s = s
history-IsSound c (e ∷ es) s = history-IsSound (happen c e) es (happen-IsSound c e s)
