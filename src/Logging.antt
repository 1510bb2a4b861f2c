-- ===== src/Logging.antt =====
-- internal/logging/logger.go: the entry of each log line. The encoding of an entry as JSON and the writing
-- of the line are left out; a clock reading is the text that Format(time.RFC3339) gives.
use cell_routing_from_scratc.Prelude.{
  ℕ, ◌≡◌, refl, String, ◌==◌, Option, none, some, [], ◌∷◌, ◌++◌, if◌then◌else◌, GoMap, IsMap,
  lookup, insert, lookup-insert, eq_iff, arith, Bool-cases, inl, inr, ◌∙◌, subst,
}
use cell_routing_from_scratc.Prelude.Int.{ℤ}

-- The values that the program logs. A duration is in microseconds.
pub data Value : Type 0 where
  text : String → Value
  int : ℤ → Value
  micros : ℕ → Value

abbrev pub Entry : Type 0
Entry = GoMap Value

-- RequestLog, with its timestamp filled in by LogRequest.
pub record RequestLog : Type 0 where
  pub request_id : String
  pub method : String
  pub path : String
  pub routing_key : String
  pub placement_key : String
  pub route_reason : String
  pub upstream_url : String
  pub status_code : ℤ
  pub duration : ℕ

-- routing_key has `omitempty`.
unfoldable pub log_request : (now : String) → RequestLog → Entry
log_request now r =
    ("timestamp", text now)
    ∷ ("request_id", text r.request_id)
    ∷ ("method", text r.method)
    ∷ ("path", text r.path)
    ∷ ((if r.routing_key == "" then [] else ("routing_key", text r.routing_key) ∷ [])
        ++ ("placement_key", text r.placement_key)
          ∷ ("route_reason", text r.route_reason)
          ∷ ("upstream_url", text r.upstream_url)
          ∷ ("status_code", int r.status_code)
          ∷ ("duration_ms", micros r.duration)
          ∷ [])

-- `for k, v := range fields { logData[k] = v }`
unfoldable pub merge : (fields base : Entry) → Entry
merge [] base = base
merge ((key, value) ∷ fields) base = merge fields (insert key value base)

abbrev pub base_entry : (now level message : String) → Entry
base_entry now level message =
    ("timestamp", text now) ∷ ("level", text level) ∷ ("message", text message) ∷ []

add_error : Option String → Entry → Entry
add_error none entry = entry
add_error (some error) entry = insert "error" (text error) entry

unfoldable pub log_error :
    (now message : String) → (error : Option String) → (fields : Entry) → Entry
unfolding merge add_error
log_error now message error fields = merge fields (add_error error (base_entry now "error" message))

unfoldable pub log_info : (now message : String) → (fields : Entry) → Entry
unfolding merge
log_info now message fields = merge fields (base_entry now "info" message)

abbrev pub or_else {ℓ} : {A : Type ℓ} → Option A → Option A → Option A
or_else none b = b
or_else (some a) b = some a

-- A field takes the place of what the logger puts under its key.
pub lookup-merge :
    (fields base : Entry) (key : String)
    → IsMap fields
    → lookup key (merge fields base) ≡ or_else (lookup key fields) (lookup key base)
unfolding merge lookup
lookup-merge [] base key m = refl
lookup-merge ((k, v) ∷ fields) base key m =
    lookup-merge fields (insert k v base) key m.1 ∙ elim (Bool-cases (k == key)) [
      | inl same ↦
          let e : k ≡ key = (eq_iff k key).0 same in
          let gone : lookup key fields ≡ none = subst (λ x. lookup x fields ≡ none) e m.0 in
          ground (arith, gone, same, lookup-insert k key v base)
      | inr other ↦ ground (arith, other, lookup-insert k key v base)
    ]
