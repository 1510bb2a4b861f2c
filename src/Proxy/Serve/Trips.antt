-- ===== src/Proxy/Serve/Trips.antt =====
-- A placement that fails, and the requests that come for it, among any other traffic.
use cell_routing_from_scratc.Prelude.{
  ℕ, suc, ◌+◌, ◌≤◌, ◌<◌, ◌≡◌, refl, ◌⊎◌, inl, inr, String, Bool, true, false, ◌==◌, Option, some,
  List, length, All, ok, arith, ap, ◌∙◌, sym, subst, Bool-cases, Option-cases,
}
use cell_routing_from_scratc.Config.{Config, get_cell_endpoints}
use cell_routing_from_scratc.Routing.{ConfigProvider, RoutingDecision, route}
use cell_routing_from_scratc.Circuit
use cell_routing_from_scratc.Circuit.{closed, opened, allows}
use cell_routing_from_scratc.Circuit.Window.{step-opened, allow-opened}
use cell_routing_from_scratc.Health
use cell_routing_from_scratc.Proxy.{Handler}
use cell_routing_from_scratc.Proxy.Exchange.{Request, Served, Flight, forwards}
use cell_routing_from_scratc.Proxy.Rerouting.{
  Fallback, no_fallback, to, nil_pointer, fallback_of, Verdict, go, refuse, crash, Attempt,
  redirect, failover, after_circuit, after_health,
}
use cell_routing_from_scratc.Proxy.Rerouting.Hops.{HealthHop}
use cell_routing_from_scratc.Proxy.Rerouting.Gone.{Way, failover-Way}
use cell_routing_from_scratc.Proxy.Serve.{begin, Upstream, finish}
use cell_routing_from_scratc.Proxy.Serve.Traffic.{
  Traffic, arrive, complete, checked, Moves, here, then,
}
use cell_routing_from_scratc.Proxy.Serve.Answers.{arrived-handler}
use cell_routing_from_scratc.Proxy.Serve.Outcome.{allows_at, begin-Passed}
use cell_routing_from_scratc.Proxy.Serve.Breakers.{
  breaker_of, get_breaker-found, begin-Asked, is_failure, outcome_call, lookup-finish,
}
use cell_routing_from_scratc.Proxy.Serve.Streaks.{outcomes, IsOpenUntil, Moves-Counts, finish-trips}
mod Tests

-- Every request arrives and is completed by this time.
abbrev pub Until : ℕ → {t u : Traffic} → Moves t u → Type 0
Until end here = Unit
Until end ((then) m (arrive provider r now)) = (now ≤ end) × Until end m
Until end ((then) m (complete before after f up now h served split e)) = (now ≤ end) × Until end m
Until end ((then) m (checked address outcome now)) = Until end m

-- An open breaker stays so until its time is over, whatever happens meanwhile.
step-IsOpenUntil :
    (end now : ℕ) (b : Circuit.Breaker) (c : Circuit.Call) (o : Option Circuit.Breaker)
    → now ≤ end
    → o ≡ some (Circuit.step b (now, c))
    → b.state ≡ opened
    → b.next_retry_time ≡ end
    → IsOpenUntil end o
step-IsOpenUntil end now b c o early e opens retry =
    let kept = step-opened b now c opens (omega (arith, retry)) in
    (Circuit.step b (now, c), e, kept.0, kept.1 ∙ retry)

Moves-IsOpenUntil :
    (key : String) (end : ℕ) {t u : Traffic} (m : Moves t u)
    → Until end m
    → IsOpenUntil end (breaker_of t.handler key)
    → IsOpenUntil end (breaker_of u.handler key)
Moves-IsOpenUntil key end here early o = o
Moves-IsOpenUntil key end ((then) {u} m (arrive provider r now)) early o =
    let (b, there, opens, retry) = Moves-IsOpenUntil key end m early.1 o in
    subst (λ h. IsOpenUntil end (breaker_of h key))
      (sym (arrived-handler u (begin provider u.handler r now)))
      (elim (begin-Asked provider u.handler r now key b there) [
        | inl same ↦ (b, same, opens, retry)
        | inr asked ↦ step-IsOpenUntil end now b allows _ early.0 asked opens retry
      ])
Moves-IsOpenUntil key end ((then) {u} m (complete before after f up now h served split e)) early o =
    let (b, there, opens, retry) = Moves-IsOpenUntil key end m early.1 o in
    let after_it = lookup-finish u.handler h f up now served key b e there in
    elim (Bool-cases (f.acquired == key)) [
      | inl own ↦
          step-IsOpenUntil end now b (outcome_call up) _ early.0 (after_it ∙ rw own refl) opens
            retry
      | inr other ↦ (b, after_it ∙ rw other refl, opens, retry)
    ]
Moves-IsOpenUntil key end ((then) m (checked address outcome now)) early o =
    Moves-IsOpenUntil key end m early o

-- Where an open circuit leaves a request to go.
shut-Way :
    (cfg : Config) (healthy : String → Bool) (from p why : String)
    → Way cfg healthy false from p why
    → (target : String) × (fallback_of cfg from ≡ to target)
      × HealthHop cfg healthy target p "circuit_open" why
shut-Way cfg healthy from p why (q, why_q, inl (admitted, there, none_yet), health) =
    absurd (cc admitted)
shut-Way cfg healthy from p why (q, why_q, inr (shut, there, because), health) =
    (q, there, subst (λ x. HealthHop cfg healthy q p x why) because health)

allows_at-opened :
    (h : Handler) (key : String) (now end : ℕ)
    → now ≤ end
    → IsOpenUntil end (breaker_of h key)
    → allows_at h key now ≡ false
allows_at-opened h key now end early (b, there, opens, retry) =
    ap (λ x. (Circuit.allow x now).1) (get_breaker-found h.circuit_manager key now b there)
    ∙ (allow-opened b now opens (omega (arith, retry)))

-- In any traffic: when the breaker of a placement, with a threshold below 2 ^ 32, is closed with no failures
-- counted, and then as many requests that Route sent to the placement fail as its threshold says, with no
-- success among them, whatever other requests come and go meanwhile, then from the last failure on, until the
-- timeout is over, a request that Route sends there is forwarded only if the placement has a fallback, and
-- has been sent on to it: it goes to the fallback, with the reason circuit_open, if that counts as
-- healthy, and otherwise where the health block leads from the fallback.
pub finish-trips_circuit :
    {t u v : Traffic} (key : String) (b : Circuit.Breaker) (leading : Moves t u) (f : Flight)
    (up : Upstream) (now : ℕ) (h : Handler) (served : Served) (rest : List Flight)
    (following : Moves (record u { handler = h; flights = rest }) v) (provider : ConfigProvider)
    (r : Request) (later : ℕ) (d : RoutingDecision) (g : Flight)
    → b.config.failure_threshold < 4294967296
    → breaker_of t.handler key ≡ some b
    → b.state ≡ closed
    → b.failures ≡ 0
    → All (λ bad. bad ≡ true) (outcomes key leading)
    → suc (length (outcomes key leading)) ≡ b.config.failure_threshold
    → finish u.handler f up now ≡ some (h, served)
    → f.acquired ≡ key
    → is_failure up ≡ true
    → Until (now + b.config.timeout) following
    → later ≤ now + b.config.timeout
    → route provider r.routing_key ≡ ok d
    → d.placement_key ≡ key
    → (begin provider v.handler r later).1 ≡ forwards g
    → (target : String) × (fallback_of v.handler.config key ≡ to target)
      × HealthHop v.handler.config
          (Health.is_healthy v.handler.health_checker)
          target
          g.decision.placement_key
          "circuit_open"
          g.failover_reason
finish-trips_circuit {t} {u} {v} key b leading f up now h served rest following provider r later d g
      small there c zero_yet bad many e own fails_too early soon routed at_key sent =
    let counts =
      Moves-Counts key b.config small leading bad (omega (arith, many))
        (b, there, c, zero_yet, refl) in
    let opens =
      finish-trips key b.config small u.handler h f up now _ served e own fails_too many counts in
    let still = Moves-IsOpenUntil key (now + b.config.timeout) following early opens in
    let p = begin-Passed provider v.handler r later g sent in
    let same : p.d.placement_key ≡ key = ground (arith, p.routed, routed, at_key) in
    let shut : allows_at v.handler key later ≡ false =
      allows_at-opened v.handler key later (now + b.config.timeout) soon still in
    let none_allowed = ap (λ x. allows_at v.handler x later) same ∙ shut in
    let way =
      failover-Way v.handler.config (Health.is_healthy v.handler.health_checker) _ p.d _
        p.failed_over in
    let (target, found, hop) =
      shut-Way v.handler.config (Health.is_healthy v.handler.health_checker) p.d.placement_key
        g.decision.placement_key g.failover_reason
        (subst
          (λ x.
            Way v.handler.config (Health.is_healthy v.handler.health_checker) x p.d.placement_key
              g.decision.placement_key g.failover_reason)
          none_allowed way) in
    (target, ap (fallback_of v.handler.config) (sym same) ∙ found, hop)
