-- ===== src/Limits.antt =====
-- internal/limits/manager.go: the manager. `int` and `int64` fields may be negative. The manager's
-- mutex makes each lookup one step; the channel operation of `TryAcquire` and `Release` is taken to
-- follow its lookup at once. Log lines are left out.
use cell_routing_from_scratc.Prelude.{
  String, Bool, true, Option, none, some, [], if◌then◌else◌, GoMap, lookup, insert, delete,
}
use cell_routing_from_scratc.Prelude.Int.{ℤ, pos, pos_part, ltb_ℤ, eqb_ℤ}
pub mod Channel
pub mod Agreement
pub mod Slots
pub mod Reconfigure
pub mod Size
mod Tests
use Channel.{Semaphore, new_semaphore}

pub record Config : Type 0 where
  pub max_concurrent_requests : ℤ
  pub max_request_body_bytes : ℤ

pub record Manager : Type 0 where
  pub semaphores : GoMap Semaphore
  pub config : GoMap Config

unfoldable pub new_manager : Manager
new_manager = record { semaphores = []; config = [] }

unfoldable pub set_config : Manager → String → Config → Manager
unfolding new_semaphore
set_config m placement_key config =
    let stored = record m { config = insert placement_key config m.config } in
    if ltb_ℤ (pos 0) config.max_concurrent_requests
    then record stored {
      semaphores =
          insert placement_key (new_semaphore (pos_part config.max_concurrent_requests))
            m.semaphores;
    }
    else record stored { semaphores = delete placement_key m.semaphores }

unfoldable pub get_config : Manager → String → Option Config
get_config m placement_key = lookup placement_key m.config

-- A semaphore is shared by pointer: the new one takes the old one's place in the map.
try_acquire_at : Manager → String → Option Semaphore → Manager × Bool
unfolding Channel.try_acquire
try_acquire_at m placement_key none = (m, true)
try_acquire_at m placement_key (some sem) =
    let (sem', acquired) = Channel.try_acquire sem in
    (record m { semaphores = insert placement_key sem' m.semaphores }, acquired)

unfoldable pub try_acquire : Manager → String → Manager × Bool
unfolding try_acquire_at
try_acquire m placement_key = try_acquire_at m placement_key (lookup placement_key m.semaphores)

blocks_or_stores : Manager → String → Option Semaphore → Option Manager
blocks_or_stores m placement_key none = none
blocks_or_stores m placement_key (some sem) =
    some (record m { semaphores = insert placement_key sem m.semaphores })

release_at : Manager → String → Option Semaphore → Option Manager
unfolding Channel.release blocks_or_stores
release_at m placement_key none = some m
release_at m placement_key (some sem) = blocks_or_stores m placement_key (Channel.release sem)

-- `none` is a release that blocks.
unfoldable pub release : Manager → String → Option Manager
unfolding release_at
release m placement_key = release_at m placement_key (lookup placement_key m.semaphores)

-- "request body size %d exceeds limit %d"
pub data SizeError : Type 0 where
  exceeds : (size limit : ℤ) → SizeError

size_error : Option Config → ℤ → Option SizeError
size_error none size = none
size_error (some config) size =
    if eqb_ℤ config.max_request_body_bytes (pos 0)
    then none
    else if ltb_ℤ config.max_request_body_bytes size
    then some (exceeds size config.max_request_body_bytes)
    else none

-- `none` is the nil error.
unfoldable pub validate_request_body_size : Manager → String → ℤ → Option SizeError
unfolding size_error get_config
validate_request_body_size m placement_key size = size_error (get_config m placement_key) size

unfoldable pub remove_config : Manager → String → Manager
remove_config m placement_key = record m {
  config = delete placement_key m.config;
  semaphores = delete placement_key m.semaphores;
}
