-- ===== src/Limits/Channel.antt =====
-- The semaphore of internal/limits/manager.go: a buffered channel of empty structs, so that its
-- capacity and the number of values in it are all of its state.
use cell_routing_from_scratc.Prelude.{
  ℕ, zero, suc, Bool, true, false, Option, none, some, ltb, if◌then◌else◌,
}

pub record Semaphore : Type 0 where
  pub capacity : ℕ
  pub held : ℕ

unfoldable pub new_semaphore : ℕ → Semaphore
new_semaphore capacity = record { capacity = capacity; held = 0 }

-- Sending succeeds while the buffer has room.
unfoldable pub try_acquire : Semaphore → Semaphore × Bool
try_acquire s = if ltb s.held s.capacity then (record s { held = suc s.held }, true) else (s, false)

pub data Acquired : Type 0 where
  acquired : Semaphore → Acquired
  cancelled : Acquired
  waits : Acquired

-- `done` says whether the context is done, and `send_first` which case the `select` takes if both are
-- ready.
unfoldable pub acquire : Semaphore → (done send_first : Bool) → Acquired
acquire s false send_first =
    if ltb s.held s.capacity then acquired (record s { held = suc s.held }) else waits
acquire s true send_first =
    if ltb s.held s.capacity
    then if send_first then acquired (record s { held = suc s.held }) else cancelled
    else cancelled

receive : ℕ → Semaphore → Option Semaphore
receive zero s = none
receive (suc n) s = some (record s { held = n })

-- Receiving blocks, `none`, while the buffer is empty.
unfoldable pub release : Semaphore → Option Semaphore
unfolding receive
release s = receive s.held s
