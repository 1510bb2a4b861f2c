-- ===== src/Limits/Tests.antt =====
-- The limits manager on concrete requests, and the theorems at concrete inputs.
use cell_routing_from_scratc.Prelude.{◌≡◌, refl, false, some, [], ◌∷◌, lookup, insert}
use cell_routing_from_scratc.Prelude.Int.{pos}
use cell_routing_from_scratc.Limits.Channel
use cell_routing_from_scratc.Limits.Agreement.{limit_of}
use cell_routing_from_scratc.Limits.Slots.{
  System, admit, Reach, here, next, Built, fresh, configured, start, count, has_room,
  try_acquire-has_room,
}
use cell_routing_from_scratc.Limits.{
  Config, Manager, exceeds, new_manager, set_config, try_acquire, validate_request_body_size,
}

abbrev one_at_a_time : Config
one_at_a_time = record { max_concurrent_requests = pos 1; max_request_body_bytes = pos 100 }

abbrev built : Manager
built = set_config new_manager "visa" one_at_a_time

built-Built : Built built
built-Built = configured "visa" one_at_a_time fresh

abbrev one_taken : System
one_taken = record { manager = (try_acquire built "visa").0; in_flight = "visa" ∷ [] }

one_taken-Reach : Reach (start built) one_taken
unfolding try_acquire Channel.try_acquire set_config new_manager lookup insert
one_taken-Reach = next here (admit "visa" (try_acquire built "visa").0 refl)

second_is_refused : (try_acquire one_taken.manager "visa").1 ≡ false
unfolding try_acquire Channel.try_acquire set_config new_manager lookup insert
second_is_refused = refl

try_acquire-has_room_example :
    (try_acquire one_taken.manager "visa").1
    ≡ has_room (limit_of (lookup "visa" built.config)) (count "visa" one_taken.in_flight)
try_acquire-has_room_example = try_acquire-has_room "visa" built-Built one_taken-Reach

too_large : validate_request_body_size built "visa" (pos 101) ≡ some (exceeds (pos 101) (pos 100))
unfolding validate_request_body_size set_config new_manager lookup insert
too_large = refl
