-- ===== src/Circuit/Registry.antt =====
-- internal/circuit/breaker.go: GetBreaker and the manager's map.
use cell_routing_from_scratc.Prelude.{
  ℕ, ◌≡◌, String, Option, none, some, ◌==◌, if◌then◌else◌, arith, lookup, lookup-insert,
  lookup-insert_self, eq_iff, Option-cases, inl, inr,
}
use cell_routing_from_scratc.Circuit.{Breaker, new_breaker, Manager, get_breaker}

-- The breaker that `GetBreaker` is to return.
abbrev pub or_new : Manager → String → ℕ → Option Breaker → Breaker
or_new m key now (some b) = b
or_new m key now none = new_breaker key m.config now

-- `GetBreaker` returns the breaker stored under the key, or else a new closed one with the manager's
-- configuration. It stores what it returns and touches no other key's entry, and asking again changes
-- nothing and returns the same breaker.
pub get_breaker_lem :
    (m : Manager) (key other : String) (now later : ℕ)
    → let (m', b) = get_breaker m key now in
      (b ≡ or_new m key now (lookup key m.breakers))
      × (lookup other m'.breakers ≡ (if key == other then some b else lookup other m.breakers))
      × (get_breaker m' key later ≡ (m', b))
      × (m'.config ≡ m.config)
unfolding get_breaker new_breaker
get_breaker_lem m key other now later = elim (Option-cases (lookup key m.breakers)) [
  | inl missing ↦ (
    ground arith,
    ground (arith, lookup-insert key other (new_breaker key m.config now) m.breakers),
    ground (arith, lookup-insert_self key (new_breaker key m.config now) m.breakers),
    ground arith,
  )
  | inr (b, found) ↦ (ground arith, ground (arith, eq_iff key other), ground arith, ground arith)
]
