-- ===== src/Limits/Agreement.antt =====
-- internal/limits/manager.go: the semaphores of the manager against its configuration.
use cell_routing_from_scratc.Prelude.{
  Option-cases, inl, inr, eq_iff, ℕ, ◌-◌, ◌≡◌, String, Option, none, some, arith, if◌then◌else◌,
  lookup, lookup-insert, lookup-delete,
}
use cell_routing_from_scratc.Prelude.Int.{pos, pos_part, ltb_ℤ}
use cell_routing_from_scratc.Limits.Channel
use cell_routing_from_scratc.Limits.Channel.{Semaphore, new_semaphore}
use cell_routing_from_scratc.Limits.{
  Config, Manager, set_config, remove_config, try_acquire, release,
}

abbrev pub limit_of : Option Config → Option ℕ
limit_of none = none
limit_of (some c) =
    if ltb_ℤ (pos 0) c.max_concurrent_requests
    then some (pos_part c.max_concurrent_requests)
    else none

abbrev pub capacity_of : Option Semaphore → Option ℕ
capacity_of none = none
capacity_of (some s) = some s.capacity

-- At this placement there is a semaphore if the configuration sets a limit, of that capacity, and
-- none if it sets none.
abbrev pub Agrees : Manager → String → Type 0
Agrees m key = capacity_of (lookup key m.semaphores) ≡ limit_of (lookup key m.config)

pub set_config-Agrees :
    (m : Manager) (at : String) (c : Config) (key : String)
    → Agrees m key
    → Agrees (set_config m at c) key
unfolding set_config
set_config-Agrees m at c key h = ground (
  arith,
  lookup-insert at key c m.config,
  lookup-insert at key (new_semaphore (pos_part c.max_concurrent_requests)) m.semaphores,
  lookup-delete at key m.semaphores,
)

pub remove_config-Agrees :
    (m : Manager) (at key : String) → Agrees m key → Agrees (remove_config m at) key
unfolding remove_config
remove_config-Agrees m at key h =
    ground (arith, lookup-delete at key m.config, lookup-delete at key m.semaphores)

pub try_acquire-Agrees :
    (m : Manager) (at key : String) → Agrees m key → Agrees (try_acquire m at).0 key
unfolding try_acquire Channel.try_acquire
try_acquire-Agrees m at key h = elim (Option-cases (lookup at m.semaphores)) [
  | inl free ↦ rw (free, try_acquire) h
  | inr (sem, found) ↦
      ground
        (arith, found, eq_iff at key, lookup-insert at key (Channel.try_acquire sem).0 m.semaphores)
]

pub release-Agrees :
    (m : Manager) (at key : String) (m' : Manager)
    → release m at ≡ some m'
    → Agrees m key
    → Agrees m' key
unfolding release Channel.release
release-Agrees m at key m' r h = elim (Option-cases (lookup at m.semaphores)) [
  | inl free ↦ ground (arith, free)
  | inr (sem, found) ↦ ground (
    arith,
    found,
    eq_iff at key,
    lookup-insert at key (record sem { held = sem.held - 1 }) m.semaphores,
  )
]
