-- ===== src/Health.antt =====
-- internal/health/checker.go. An EndpointHealth is shared by pointer between the map and the goroutine
-- that checks it, so the checker keeps the objects in `heap`, and the map and the goroutines hold
-- addresses, positions in it; nothing is ever freed. Log lines are left out.
use cell_routing_from_scratc.Prelude.{
  ℕ, String, Bool, true, false, ◌&&◌, Option, none, some, List, [], ◌∷◌, ◌++◌, leb, ltb,
  if◌then◌else◌, GoMap, lookup, insert, delete, length, get_elem?, set,
}
use cell_routing_from_scratc.Prelude.Int.{ℤ, pos, ltb_ℤ}
pub mod Store
pub mod Checks
pub mod Stopping
mod Tests

pub data State : Type 0 where
  healthy unhealthy : State

pub record CheckConfig : Type 0 where
  pub path : String
  pub interval : ℤ
  pub timeout : ℤ

-- The zero time.Time is 0.
pub record EndpointHealth : Type 0 where
  pub url : String
  pub state : State
  pub last_check : ℕ

pub record Checker : Type 0 where
  pub endpoints : GoMap ℕ
  pub heap : List EndpointHealth
  pub loops : List (String × ℕ)  -- the goroutines started, with their arguments
  pub config : CheckConfig
  pub stopped : Bool

unfoldable pub new_checker : CheckConfig → Checker
new_checker config = record {
  endpoints = [];
  heap = [];
  loops = [];
  config = config;
  stopped = false;
}

register_new : Checker → String → String → Option ℕ → Checker
register_new c placement_key url (some address) = c
register_new c placement_key url none =
    let address = length c.heap in
    record c {
      endpoints = insert placement_key address c.endpoints;
      heap = c.heap ++ record { url = url; state = healthy; last_check = 0 } ∷ [];
      loops = c.loops ++ (placement_key, address) ∷ [];
    }

unfoldable pub register_endpoint : Checker → String → String → Checker
unfolding register_new
register_endpoint c placement_key url =
    register_new c placement_key url (lookup placement_key c.endpoints)

unfoldable pub unregister_endpoint : Checker → String → Checker
unregister_endpoint c placement_key = record c { endpoints = delete placement_key c.endpoints }

-- An address outside the heap does not occur in a sound checker.
state_at : List EndpointHealth → Option ℕ → State
state_at heap none = healthy
state_at heap (some address) = elim (get_elem? heap address) [
  | none ↦ healthy
  | some endpoint ↦ endpoint.state
]

unfoldable pub get_state : Checker → String → State
unfolding state_at
get_state c placement_key = state_at c.heap (lookup placement_key c.endpoints)

is_healthy_state : State → Bool
is_healthy_state healthy = true
is_healthy_state unhealthy = false

unfoldable pub is_healthy : Checker → String → Bool
unfolding is_healthy_state state_at
is_healthy c placement_key = is_healthy_state (state_at c.heap (lookup placement_key c.endpoints))

-- What becomes of the request of one check.
pub data CheckOutcome : Type 0 where
  request_creation_failed request_failed : CheckOutcome
  responded : (status : ℕ) → CheckOutcome

unfoldable pub state_of : CheckOutcome → State
state_of request_creation_failed = unhealthy
state_of request_failed = unhealthy
state_of (responded status) = if leb 200 status && ltb status 300 then healthy else unhealthy

set_state : List EndpointHealth → ℕ → State → ℕ → List EndpointHealth
set_state heap address state now = elim (get_elem? heap address) [
  | none ↦ heap
  | some endpoint ↦ set heap address (record endpoint { state = state; last_check = now })
]

-- Both branches of `transitionState` set the state and the time.
unfoldable pub perform_check : Checker → ℕ → CheckOutcome → ℕ → Checker
unfolding set_state
perform_check c address outcome now = record c {
  heap = set_state c.heap address (state_of outcome) now;
}

check_each : Checker → ℕ → List (CheckOutcome × ℕ) → Checker
check_each c address [] = c
check_each c address ((outcome, now) ∷ rest) =
    check_each (perform_check c address outcome now) address rest

-- The checks that one goroutine makes until the checker is stopped: the first at once, one more for each
-- tick. time.NewTicker panics, `none`, if the interval is not positive.
unfoldable pub check_loop : Checker → ℕ → List (CheckOutcome × ℕ) → Option Checker
unfolding check_each
check_loop c address checks =
    if ltb_ℤ (pos 0) c.config.interval then some (check_each c address checks) else none

-- Closing the channel a second time panics, `none`.
unfoldable pub stop : Checker → Option Checker
stop c = if c.stopped then none else some (record c { stopped = true })

-- What happens to a checker: the calls of its methods, and checks by its goroutines at their addresses.
pub data Event : Type 0 where
  registers : (placement_key url : String) → Event
  unregisters : (placement_key : String) → Event
  checks : (address : ℕ) (outcome : CheckOutcome) (now : ℕ) → Event

happen : Checker → Event → Checker
unfolding register_endpoint unregister_endpoint perform_check
happen c (registers key url) = register_endpoint c key url
happen c (unregisters key) = unregister_endpoint c key
happen c (checks address outcome now) = perform_check c address outcome now

unfoldable pub history : Checker → List Event → Checker
unfolding happen
history c [] = c
history c (e ∷ es) = history (happen c e) es
