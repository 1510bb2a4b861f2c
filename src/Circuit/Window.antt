-- ===== src/Circuit/Window.antt =====
-- The time that a breaker stays open, and what follows it.
use cell_routing_from_scratc.Prelude.{
  ℕ, ◌+◌, ◌≤◌, ◌<◌, ◌≡◌, refl, true, false, List, [], ◌∷◌, arith, All, ◌∙◌,
}
use cell_routing_from_scratc.Circuit.{
  Config, State, closed, opened, half_open, Breaker, Call, allows, succeeds, fails, allow, step,
  run, answers,
}

-- One call before the retry time leaves the state and the retry time of an open breaker.
pub step-opened :
    (b : Breaker) (now : ℕ) (c : Call)
    → b.state ≡ opened
    → now ≤ b.next_retry_time
    → ((step b (now, c)).state ≡ opened) × ((step b (now, c)).next_retry_time ≡ b.next_retry_time)
unfolding step
step-opened b now allows o early = ground arith
step-opened b now succeeds o early = ground arith
step-opened b now fails o early = ground arith

pub allow-opened :
    (b : Breaker) (now : ℕ) → b.state ≡ opened → now ≤ b.next_retry_time → (allow b now).1 ≡ false
unfolding allow
allow-opened b now o early = ground arith

-- What holds of an open breaker during its window, and of the answers that it gives.
abbrev pub StaysOpen : Breaker → List (ℕ × Call) → Type 0
StaysOpen b cs =
    ((run b cs).state ≡ opened)
    × ((run b cs).next_retry_time ≡ b.next_retry_time)
    × All (λ answer. answer ≡ false) (answers b cs)

window :
    (until : ℕ) (b : Breaker) (cs : List (ℕ × Call))
    → b.state ≡ opened
    → b.next_retry_time ≡ until
    → All (λ c. c.0 ≤ until) cs
    → ((run b cs).state ≡ opened)
      × ((run b cs).next_retry_time ≡ until)
      × All (λ answer. answer ≡ false) (answers b cs)
unfolding run answers
window until b [] o u early = (o, u, tt)
window until b ((now, allows) ∷ cs) o u early =
    let kept = step-opened b now allows o (omega arith) in
    let rest = window until (step b (now, allows)) cs kept.0 (kept.1 ∙ u) early.1 in
    (rest.0, rest.1, (allow-opened b now o (omega arith), rest.2))
window until b ((now, succeeds) ∷ cs) o u early =
    let kept = step-opened b now succeeds o (omega arith) in
    window until (step b (now, succeeds)) cs kept.0 (kept.1 ∙ u) early.1
window until b ((now, fails) ∷ cs) o u early =
    let kept = step-opened b now fails o (omega arith) in
    window until (step b (now, fails)) cs kept.0 (kept.1 ∙ u) early.1

-- Throughout calls that come no later than its retry time, an open breaker stays open and keeps that
-- time, and `Allow` refuses every request, whatever late outcomes are recorded meanwhile.
pub run-StaysOpen :
    (b : Breaker) (cs : List (ℕ × Call))
    → b.state ≡ opened
    → All (λ c. c.0 ≤ b.next_retry_time) cs
    → StaysOpen b cs
run-StaysOpen b cs o early = window b.next_retry_time b cs o refl early

-- The times of requests that ask one after the other, with no outcome recorded between.
abbrev pub asks : List ℕ → List (ℕ × Call)
asks [] = []
asks (t ∷ ts) = (t, allows) ∷ asks ts

-- A breaker that lets requests through until it hears of one.
abbrev Probing : Config → Breaker → Type 0
Probing config b = (b.state ≡ half_open) × (b.config ≡ config)

half_open_admits :
    (config : Config) (b : Breaker) (ts : List ℕ)
    → Probing config b
    → All (λ answer. answer ≡ true) (answers b (asks ts)) × Probing config (run b (asks ts))
unfolding answers run step allow
half_open_admits config b [] h = (tt, h)
half_open_admits config b (t ∷ ts) h =
    let probed : Probing config (allow b t).0 = (ground (arith, h.0), ground (arith, h.0, h.1)) in
    let (admitted, still) = half_open_admits config (allow b t).0 ts probed in
    ((ground (arith, h.0), admitted), still)

probed-outcomes :
    (config : Config) (b : Breaker) (later : ℕ)
    → Probing config b
    → ((step b (later, succeeds)).state ≡ closed)
      × ((step b (later, succeeds)).failures ≡ 0)
      × ((step b (later, fails)).state ≡ opened)
      × ((step b (later, fails)).next_retry_time ≡ later + config.timeout)
unfolding step
probed-outcomes config b later h =
    (ground (arith, h.0), ground (arith, h.0), ground (arith, h.0), ground (arith, h.0, h.1))

-- Once the retry time of an open breaker has passed, every request that asks is admitted, however many
-- there are and whenever they come, not one alone, until the first outcome is recorded, and that one
-- decides: a success closes the breaker and clears its count, and a failure opens it again until that
-- failure's time and the timeout.
pub half_open_until_outcome :
    (b : Breaker) (now later : ℕ) (ts : List ℕ)
    → b.state ≡ opened
    → b.next_retry_time < now
    → let probed = run b (asks (now ∷ ts)) in
      All (λ answer. answer ≡ true) (answers b (asks (now ∷ ts)))
      × ((step probed (later, succeeds)).state ≡ closed)
      × ((step probed (later, succeeds)).failures ≡ 0)
      × ((step probed (later, fails)).state ≡ opened)
      × ((step probed (later, fails)).next_retry_time ≡ later + b.config.timeout)
unfolding answers run step allow
half_open_until_outcome b now later ts o due =
    let first : Probing b.config (allow b now).0 = (ground arith, ground arith) in
    let (admitted, still) = half_open_admits b.config (allow b now).0 ts first in
    let (closes, clears, opens, retry) =
      probed-outcomes b.config (run (allow b now).0 (asks ts)) later still in
    ((ground arith, admitted), closes, clears, opens, retry)

-- A breaker that refuses a request is open.
pub refused-state :
    (b : Breaker) (now : ℕ) → (allow b now).1 ≡ false → (allow b now).0.state ≡ opened
unfolding allow
refused-state b now e = at b.state refl
  where
    at : (s : State) → b.state ≡ s → (allow b now).0.state ≡ opened
    at closed q = absurd (ground (arith, q, e))
    at half_open q = absurd (ground (arith, q, e))
    at opened q = ground (arith, q, e)
