-- ===== src/Circuit.antt =====
-- internal/circuit/breaker.go. A time is a number of nanoseconds on the process's clock; an operation
-- that calls time.Now() takes the reading `now` as an argument. The zero time.Time is 0. `Timeout` is
-- not negative (NewHandler gives 30 seconds). A method on `*Breaker` returns the new record; the
-- mutex makes each one a single step. Log lines are left out.
use cell_routing_from_scratc.Prelude.{
  ℕ, ◌+◌, ◌%◌, ◌^◌, String, Bool, true, false, Option, none, some, List, [], ◌∷◌, ltb, leb,
  if◌then◌else◌, GoMap, lookup, insert, delete,
}
pub mod Diagram
pub mod Counting
pub mod Window
pub mod Registry
mod Tests

-- "open" is a word of the language.
pub data State : Type 0 where
  closed opened half_open : State

pub record Config : Type 0 where
  pub failure_threshold : ℕ  -- uint32
  pub timeout : ℕ

pub record Breaker : Type 0 where
  pub placement_key : String
  pub config : Config
  pub state : State
  pub failures : ℕ  -- uint32
  pub last_state_change : ℕ
  pub next_retry_time : ℕ

unfoldable pub new_breaker : String → Config → ℕ → Breaker
new_breaker placement_key config now = record {
  placement_key = placement_key;
  config = config;
  state = closed;
  failures = 0;
  last_state_change = now;
  next_retry_time = 0;
}

same_state : State → State → Bool
same_state closed closed = true
same_state opened opened = true
same_state half_open half_open = true
same_state _ _ = false

transition_to : Breaker → State → ℕ → Breaker
unfolding same_state
transition_to b new_state now =
    if same_state b.state new_state
    then b
    else record b { state = new_state; last_state_change = now }

-- The cases of the `switch` of `Allow`.
allow_in : State → Breaker → ℕ → Breaker × Bool
unfolding transition_to
allow_in closed b now = (b, true)
allow_in opened b now =
    if ltb b.next_retry_time now then (transition_to b half_open now, true) else (b, false)
allow_in half_open b now = (b, true)

unfoldable pub allow : Breaker → ℕ → Breaker × Bool
unfolding allow_in
allow b now = allow_in b.state b now

success_in : State → Breaker → ℕ → Breaker
unfolding transition_to
success_in closed b now = record b { failures = 0 }
success_in opened b now = b
success_in half_open b now = transition_to (record b { failures = 0 }) closed now

unfoldable pub record_success : Breaker → ℕ → Breaker
unfolding success_in
record_success b now = success_in b.state b now

abbrev pub u32 : ℕ → ℕ
u32 n = n % 2 ^ 32

-- `b` has the failure counted already.
failure_in : State → Breaker → ℕ → Breaker
unfolding transition_to
failure_in closed b now =
    if leb b.config.failure_threshold b.failures
    then transition_to (record b { next_retry_time = now + b.config.timeout }) opened now
    else b
failure_in opened b now = b
failure_in half_open b now =
    transition_to (record b { next_retry_time = now + b.config.timeout }) opened now

unfoldable pub record_failure : Breaker → ℕ → Breaker
unfolding failure_in
record_failure b now = failure_in b.state (record b { failures = u32 (b.failures + 1) }) now

unfoldable pub get_state : Breaker → State
get_state b = b.state

unfoldable pub get_failure_count : Breaker → ℕ
get_failure_count b = b.failures

-- The breakers of a manager by placement key. `GetBreaker` hands out a pointer to the entry, so what
-- its holder records is an update of the entry.
pub record Manager : Type 0 where
  pub breakers : GoMap Breaker
  pub config : Config

unfoldable pub new_manager : Config → Manager
new_manager config = record { breakers = []; config = config }

-- The new entry on a miss; the second look under the write lock sees what the first saw.
found_or_new : Manager → String → ℕ → Option Breaker → Manager × Breaker
unfolding new_breaker
found_or_new m placement_key now (some breaker) = (m, breaker)
found_or_new m placement_key now none =
    let breaker = new_breaker placement_key m.config now in
    (record m { breakers = insert placement_key breaker m.breakers }, breaker)

unfoldable pub get_breaker : Manager → String → ℕ → Manager × Breaker
unfolding found_or_new
get_breaker m placement_key now = found_or_new m placement_key now (lookup placement_key m.breakers)

unfoldable pub remove_breaker : Manager → String → Manager
remove_breaker m placement_key = record m { breakers = delete placement_key m.breakers }

-- What a holder of the pointer records is seen in the map.
unfoldable pub put_breaker : Manager → String → Breaker → Manager
put_breaker m placement_key b = record m { breakers = insert placement_key b m.breakers }

-- One call of a breaker's methods, and a sequence of them, each at its clock reading.
pub data Call : Type 0 where
  allows succeeds fails : Call

unfoldable pub step : Breaker → ℕ × Call → Breaker
unfolding allow record_success record_failure
step b (now, allows) = (allow b now).0
step b (now, succeeds) = record_success b now
step b (now, fails) = record_failure b now

unfoldable pub run : Breaker → List (ℕ × Call) → Breaker
run b [] = b
run b (c ∷ cs) = run (step b c) cs

-- What `Allow` answers in the course of a sequence.
unfoldable pub answers : Breaker → List (ℕ × Call) → List Bool
unfolding allow
answers b [] = []
answers b ((now, allows) ∷ cs) = (allow b now).1 ∷ answers (step b (now, allows)) cs
answers b ((now, succeeds) ∷ cs) = answers (step b (now, succeeds)) cs
answers b ((now, fails) ∷ cs) = answers (step b (now, fails)) cs
