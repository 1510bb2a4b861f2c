-- ===== src/Proxy/Serve/Streaks.antt =====
-- The failures that a closed breaker counts, among any traffic, up to the one that opens it.
use cell_routing_from_scratc.Prelude.{
  ℕ, suc, ◌+◌, ◌<◌, ◌≡◌, refl, inl, inr, String, Bool, true, false, ◌==◌, Option, some, List, [],
  ◌∷◌, length, All, if◌then◌else◌, arith, eq_refl, ap, ◌∙◌, sym, subst, Bool-cases,
}
use cell_routing_from_scratc.Routing.{ConfigProvider}
use cell_routing_from_scratc.Circuit
use cell_routing_from_scratc.Circuit.{closed, opened, allows, succeeds, fails}
use cell_routing_from_scratc.Circuit.Counting.{fails_closed, fails_last}
use cell_routing_from_scratc.Proxy.{Handler}
use cell_routing_from_scratc.Proxy.Exchange.{Request, Served, Flight}
use cell_routing_from_scratc.Proxy.Serve.{begin, Upstream, finish}
use cell_routing_from_scratc.Proxy.Serve.Traffic.{
  Traffic, arrive, complete, checked, Moves, here, then,
}
use cell_routing_from_scratc.Proxy.Serve.Answers.{arrived-handler}
use cell_routing_from_scratc.Proxy.Serve.Breakers.{
  breaker_of, begin-Asked, is_failure, lookup-finish,
}

-- The outcomes of the requests that Route sent to a placement, the latest one first: true for a failure.
abbrev pub outcomes : String → {t u : Traffic} → Moves t u → List Bool
outcomes key here = []
outcomes key ((then) m (arrive provider r now)) = outcomes key m
outcomes key ((then) m (complete before after f up now h served split e)) =
    let rest = outcomes key m in if f.acquired == key then is_failure up ∷ rest else rest
outcomes key ((then) m (checked address outcome now)) = outcomes key m

allow_closed : (b : Circuit.Breaker) (now : ℕ) → b.state ≡ closed → Circuit.step b (now, allows) ≡ b
unfolding Circuit.step Circuit.allow
allow_closed b now c = ground arith

-- A breaker that is closed and has counted `n` failures.
abbrev pub Counts : ℕ → Circuit.Config → Option Circuit.Breaker → Type 0
Counts n config o =
    (b : Circuit.Breaker) × (o ≡ some b)
    × (b.state ≡ closed)
    × (b.failures ≡ n)
    × (b.config ≡ config)

-- A breaker that is open until this time.
abbrev pub IsOpenUntil : ℕ → Option Circuit.Breaker → Type 0
IsOpenUntil end o =
    (b : Circuit.Breaker) × (o ≡ some b) × (b.state ≡ opened) × (b.next_retry_time ≡ end)

fails-retry :
    (b : Circuit.Breaker) (now : ℕ)
    → b.state ≡ closed
    → (Circuit.step b (now, fails)).state ≡ opened
    → (Circuit.step b (now, fails)).next_retry_time ≡ now + b.config.timeout
unfolding Circuit.step Circuit.record_failure
fails-retry b now c o = ground (arith, o)

module _ (key : String) (config : Circuit.Config)
    (small : config.failure_threshold < 4294967296) where
  begin-Counts :
      (provider : ConfigProvider) (h : Handler) (r : Request) (now n : ℕ)
      → Counts n config (breaker_of h key)
      → Counts n config (breaker_of (begin provider h r now).0 key)
  begin-Counts provider h r now n (b, there, c, counted, e) =
      elim (begin-Asked provider h r now key b there) [
        | inl same ↦ (b, same, c, counted, e)
        | inr asked ↦ (b, asked ∙ ap (λ x. some x) (allow_closed b now c), c, counted, e)
      ]

  finish-Counts :
      (h h' : Handler) (f : Flight) (u : Upstream) (now n : ℕ) (served : Served)
      → finish h f u now ≡ some (h', served)
      → f.acquired == key ≡ true
      → is_failure u ≡ true
      → suc n < config.failure_threshold
      → Counts n config (breaker_of h key)
      → Counts (suc n) config (breaker_of h' key)
  finish-Counts h h' f u now n served e own bad more (b, there, c, counted, same) =
      let next : Circuit.step b (now, fails) ≡ record b { failures = b.failures + 1 } =
        fails_closed b now c (ground (arith, counted, same, more)) (ground (arith, same, small)) in
      (
        record b { failures = b.failures + 1 },
        lookup-finish h h' f u now served key b e there ∙ rw own (rw bad (ap (λ x. some x) next)),
        c,
        omega (arith, counted),
        same,
      )

  finish-other :
      (h h' : Handler) (f : Flight) (u : Upstream) (now : ℕ) (served : Served) (b : Circuit.Breaker)
      → finish h f u now ≡ some (h', served)
      → f.acquired == key ≡ false
      → breaker_of h key ≡ some b
      → breaker_of h' key ≡ some b
  finish-other h h' f u now served b e other there =
      lookup-finish h h' f u now served key b e there ∙ rw other refl

  -- Failures alone, fewer than the threshold, are all counted.
  pub Moves-Counts :
      {t u : Traffic} (m : Moves t u)
      → All (λ bad. bad ≡ true) (outcomes key m)
      → length (outcomes key m) < config.failure_threshold
      → Counts 0 config (breaker_of t.handler key)
      → Counts (length (outcomes key m)) config (breaker_of u.handler key)
  Moves-Counts here bad few c = c
  Moves-Counts ((then) {u} m (arrive provider r now)) bad few c =
      subst (λ h. Counts (length (outcomes key m)) config (breaker_of h key))
        (sym (arrived-handler u (begin provider u.handler r now)))
        (begin-Counts provider u.handler r now _ (Moves-Counts m bad few c))
  Moves-Counts ((then) {u} m (complete before after f up now h served split e)) bad few c =
      elim (Bool-cases (f.acquired == key)) [
        | inl own ↦
            let all_bad : All (λ x. x ≡ true) (is_failure up ∷ outcomes key m) = rw own at bad in
            let fewer : suc (length (outcomes key m)) < config.failure_threshold = rw own at few in
            rw own (
              finish-Counts u.handler h f up now _ served e own all_bad.0 fewer
                (Moves-Counts m all_bad.1 (omega (arith, fewer)) c))
        | inr other ↦
            let (b, there, still, counted, same) =
              Moves-Counts m (rw other at bad) (rw other at few) c in
            rw other
              (b, finish-other u.handler h f up now served b e other there, still, counted, same)
      ]
  Moves-Counts ((then) m (checked address outcome now)) bad few c = Moves-Counts m bad few c

  -- One failure more opens it.
  pub finish-trips :
      (h h' : Handler) (f : Flight) (u : Upstream) (now n : ℕ) (served : Served)
      → finish h f u now ≡ some (h', served)
      → f.acquired ≡ key
      → is_failure u ≡ true
      → suc n ≡ config.failure_threshold
      → Counts n config (breaker_of h key)
      → IsOpenUntil (now + config.timeout) (breaker_of h' key)
  finish-trips h h' f u now n served e own bad last (b, there, c, counted, same) =
      let opens =
        fails_last b now c (ground (arith, counted, same, last)) (ground (arith, same, small)) in
      (
        Circuit.step b (now, fails),
        lookup-finish h h' f u now served key b e there ∙ rw (own, eq_refl key) (rw bad refl),
        opens,
        fails-retry b now c opens ∙ ap (λ x. now + x.timeout) same,
      )
