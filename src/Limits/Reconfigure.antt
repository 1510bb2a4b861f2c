-- ===== src/Limits/Reconfigure.antt =====
-- What `SetConfig` does to requests that already hold a slot.
use cell_routing_from_scratc.Prelude.{◌<◌, ◌≡◌, String, none, arith, lookup-insert_self}
use cell_routing_from_scratc.Prelude.Int.{pos_part}
use cell_routing_from_scratc.Limits.Channel
use cell_routing_from_scratc.Limits.Channel.{new_semaphore}
use cell_routing_from_scratc.Limits.{Config, Manager, set_config, try_acquire, release}

-- If `SetConfig` sets a limit for a placement while a request is in flight there, that request's
-- `Release` blocks: the new semaphore is empty. This holds whether or not the placement had a limit.
pub set_config_blocks_release :
    (m : Manager) (key : String) (c : Config)
    → 0 < pos_part c.max_concurrent_requests
    → release (set_config (try_acquire m key).0 key c) key ≡ none
unfolding set_config release Channel.release new_semaphore
set_config_blocks_release m key c h = ground (
  arith,
  lookup-insert_self key (new_semaphore (pos_part c.max_concurrent_requests))
      (try_acquire m key).0.semaphores,
)
