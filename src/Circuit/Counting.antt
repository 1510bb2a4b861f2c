-- ===== src/Circuit/Counting.antt =====
-- internal/circuit/breaker.go: when a closed breaker opens.
use cell_routing_from_scratc.Prelude.{
  ℕ, zero, suc, ◌+◌, ◌-◌, ◌≤◌, ◌<◌, ◌≡◌, refl, Bool, true, false, ◌||◌, List, [], ◌∷◌, arith,
  if◌then◌else◌, ap, ◌∙◌, subst, sym,
}
use cell_routing_from_scratc.Circuit.{closed, opened, Breaker, Call, succeeds, fails, step}

-- An outcome of a request, at the time of its recording: `true` is a success.
abbrev pub outcome : ℕ × Bool → ℕ × Call
outcome (now, true) = (now, succeeds)
outcome (now, false) = (now, fails)

pub record_all : Breaker → List (ℕ × Bool) → Breaker
unfolding step
record_all b [] = b
record_all b (r ∷ rs) = record_all (step b (outcome r)) rs

-- The first `k` outcomes are there and are failures.
abbrev pub leads : ℕ → List (ℕ × Bool) → Bool
leads zero rs = true
leads (suc k) [] = false
leads (suc k) ((now, true) ∷ rs) = false
leads (suc k) ((now, false) ∷ rs) = leads k rs

-- Somewhere `k` outcomes in a row are failures.
abbrev pub has_streak : ℕ → List (ℕ × Bool) → Bool
has_streak k [] = leads k []
has_streak k (r ∷ rs) = leads k (r ∷ rs) || has_streak k rs

opened-absorbs :
    (b : Breaker) (rs : List (ℕ × Bool)) → b.state ≡ opened → (record_all b rs).state ≡ opened
unfolding record_all
opened-absorbs b [] h = h
opened-absorbs b ((now, true) ∷ rs) h =
    opened-absorbs (step b (now, succeeds)) rs (unfold step in ground arith)
opened-absorbs b ((now, false) ∷ rs) h =
    opened-absorbs (step b (now, fails)) rs (unfold step in ground arith)

leads_mono : (i j : ℕ) (rs : List (ℕ × Bool)) → i ≤ j → leads j rs ≡ true → leads i rs ≡ true
leads_mono zero j rs h e = refl
leads_mono (suc i) zero rs h e = absurd (omega arith)
leads_mono (suc i) (suc j) [] h e = cc
leads_mono (suc i) (suc j) ((now, true) ∷ rs) h e = cc
leads_mono (suc i) (suc j) ((now, false) ∷ rs) h e = leads_mono i j rs (omega arith) e

has_streak-leads : (k : ℕ) (rs : List (ℕ × Bool)) → leads k rs || has_streak k rs ≡ has_streak k rs
has_streak-leads k [] = ground arith
has_streak-leads k (r ∷ rs) = ground arith

-- What one outcome does to a closed breaker.
succeeds_closed :
    (b : Breaker) (now : ℕ) → b.state ≡ closed → step b (now, succeeds) ≡ record b { failures = 0 }
unfolding step
succeeds_closed b now c = ground arith

pub fails_closed :
    (b : Breaker) (now : ℕ)
    → b.state ≡ closed
    → b.failures + 1 < b.config.failure_threshold
    → b.config.failure_threshold < 4294967296
    → step b (now, fails) ≡ record b { failures = b.failures + 1 }
unfolding step
fails_closed b now c h w = ground arith

pub fails_last :
    (b : Breaker) (now : ℕ)
    → b.state ≡ closed
    → b.failures + 1 ≡ b.config.failure_threshold
    → b.config.failure_threshold < 4294967296
    → (step b (now, fails)).state ≡ opened
unfolding step
fails_last b now c h w = ground arith

-- With `suc k` for threshold, a breaker that needs `suc m` more failures opens on those or on a later
-- run of the full length.
counting :
    (k m : ℕ) (b : Breaker) (rs : List (ℕ × Bool))
    → b.state ≡ closed
    → b.failures + m ≡ k
    → b.config.failure_threshold ≡ suc k
    → suc k < 4294967296
    → (record_all b rs).state
      ≡ (if leads (suc m) rs || has_streak (suc k) rs then opened else closed)
unfolding record_all
counting k m b [] c e t w = c
counting k m b ((now, true) ∷ rs) c e t w =
    ap (λ x. (record_all x rs).state) (succeeds_closed b now c)
    ∙ counting k k (record b { failures = 0 }) rs c (omega arith) t w
    ∙ ap (λ x. if x then opened else closed) (has_streak-leads (suc k) rs)
counting k zero b ((now, false) ∷ rs) c e t w =
    opened-absorbs (step b (now, fails)) rs (fails_last b now c (omega arith) (omega arith))
counting k (suc m) b ((now, false) ∷ rs) c e t w =
    ap (λ x. (record_all x rs).state) (fails_closed b now c (omega arith) (omega arith))
    ∙ ground (
      arith,
      counting k m (record b { failures = b.failures + 1 }) rs c (omega arith) t w,
      leads_mono (suc m) k rs,
    )

-- A breaker that starts closed with no failures counted, under a threshold of at least one and below
-- 2 ^ 32, is open after a list of outcomes exactly if `threshold` outcomes in a row were failures;
-- otherwise it is still closed.
pub record_all-has_streak :
    (b : Breaker) (rs : List (ℕ × Bool))
    → b.state ≡ closed
    → b.failures ≡ 0
    → 0 < b.config.failure_threshold
    → b.config.failure_threshold < 4294967296
    → (record_all b rs).state
      ≡ (if has_streak b.config.failure_threshold rs then opened else closed)
record_all-has_streak b rs c z p w =
    let k = b.config.failure_threshold - 1 in
    let t : b.config.failure_threshold ≡ suc k = omega arith in
    subst (λ n. (record_all b rs).state ≡ (if has_streak n rs then opened else closed)) (sym t)
      (counting k k b rs c (omega arith) t (omega arith)
        ∙ ap (λ x. if x then opened else closed) (has_streak-leads (suc k) rs))
