-- ===== src/Limits/Size.antt =====
-- The limit on the size of a request's body.
use cell_routing_from_scratc.Prelude.{
  ◌≡◌, refl, ◌⊎◌, ◌↔◌, String, Option, none, some, arith, lookup,
}
use cell_routing_from_scratc.Prelude.Int.{ℤ, pos, ◌≤ℤ◌}
use cell_routing_from_scratc.Limits.{Config, Manager, size_error, validate_request_body_size}

-- When a body of this size is within the limits of a placement.
abbrev pub IsWithin : ℤ → Option Config → Type 0
IsWithin size none = Unit
IsWithin size (some c) = (c.max_request_body_bytes ≡ pos 0) ⊎ (size ≤ℤ c.max_request_body_bytes)

size_error-IsWithin_iff :
    (c : Option Config) (size : ℤ) → (size_error c size ≡ none) ↔ IsWithin size c
unfolding size_error
size_error-IsWithin_iff none size = (λ _. tt, λ _. refl)
size_error-IsWithin_iff (some c) size = (λ e. ground (arith, e), λ w. ground (arith, w))

-- `ValidateRequestBodySize` returns no error exactly if the placement has no configuration, or its
-- limit is 0, or the size is at most the limit.
pub validate-IsWithin_iff :
    (m : Manager) (key : String) (size : ℤ)
    → (validate_request_body_size m key size ≡ none) ↔ IsWithin size (lookup key m.config)
unfolding validate_request_body_size
validate-IsWithin_iff m key size = size_error-IsWithin_iff (lookup key m.config) size
