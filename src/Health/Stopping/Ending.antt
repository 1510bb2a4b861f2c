-- ===== src/Health/Stopping/Ending.antt =====
-- From any state in which stopCh is closed, the goroutines can end one after the other.
use cell_routing_from_scratc.Prelude.{
  ℕ, suc, ◌+◌, ◌≡◌, refl, true, List, [], ◌∷◌, ◌++◌, All, arith, sym, ◌∙◌, subst, All-append,
}
use mathlib.Core.List.{append-nil, append_assoc}
use cell_routing_from_scratc.Health.{perform_check, request_failed}
use cell_routing_from_scratc.Health.Stopping.{
  LoopAt, checking, selecting, ended, Loop, Running, checks, sees_stop, Steps, here, next,
}

-- How many steps the goroutines need to end, if the selects take the closed channel.
abbrev pub to_end : LoopAt → ℕ
to_end checking = 2
to_end selecting = 1
to_end ended = 0

unfoldable pub remaining : List Loop → ℕ
remaining [] = 0
remaining (l ∷ rest) = to_end l.at + remaining rest

pub Steps-trans :
    {s t u : Running} {m n : ℕ} → Steps s m t → Steps t n u → (k : ℕ) × (k ≡ m + n) × Steps s k u
Steps-trans {m = m} a here = (m, omega arith, a)
Steps-trans a (next b s) =
    let (k, e, run) = Steps-trans a b in (suc k, omega (arith, e), next run s)

-- The goroutine `l` ends, and nothing else happens but its check.
record EndsOne (s : Running) (before : List Loop) (l : Loop) (after : List Loop) : Type 0 where
  reached : Running
  run : Steps s (to_end l.at) reached
  loops_now : reached.loops ≡ before ++ record l { at = ended } ∷ after
  same_stop : reached.stop_at ≡ s.stop_at
  still_stopped : reached.checker.stopped ≡ true

end_one :
    (s : Running) (before : List Loop) (address : ℕ) (at : LoopAt) (after : List Loop)
    → s.loops ≡ before ++ record { address = address; at = at } ∷ after
    → s.checker.stopped ≡ true
    → EndsOne s before (record { address = address; at = at }) after
unfolding perform_check
end_one s before address ended after e off = record {
  reached = s;
  run = here;
  loops_now = e;
  same_stop = refl;
  still_stopped = off;
}
end_one s before address selecting after e off = record {
  reached = _;
  run =
      next here (sees_stop before after (record { address = address; at = selecting }) e refl off);
  loops_now = refl;
  same_stop = refl;
  still_stopped = off;
}
end_one s before address checking after e off = record {
  reached = _;
  run =
      next
        (next here (
          checks before after (record { address = address; at = checking }) request_failed 0 e
            refl))
        (sees_stop before after (record { address = address; at = selecting }) refl refl off);
  loops_now = refl;
  same_stop = refl;
  still_stopped = off;
}

pub record EndsAll (s : Running) (after : List Loop) : Type 0 where
  pub reached : Running
  pub count : ℕ
  pub counted : count ≡ remaining after
  pub run : Steps s count reached
  pub all_ended : All (λ l. l.at ≡ ended) reached.loops
  pub same_stop : reached.stop_at ≡ s.stop_at

pub end_all :
    (s : Running) (before after : List Loop)
    → s.loops ≡ before ++ after
    → All (λ l. l.at ≡ ended) before
    → s.checker.stopped ≡ true
    → EndsAll s after
unfolding remaining
end_all s before [] e done off = record {
  reached = s;
  count = 0;
  counted = refl;
  run = here;
  all_ended = subst (All (λ l. l.at ≡ ended)) (sym (e ∙ append-nil before)) done;
  same_stop = refl;
}
end_all s before (l ∷ rest) e done off =
    let one = end_one s before l.address l.at rest e off in
    let l' : Loop = record l { at = ended } in
    let others =
      end_all one.reached (before ++ l' ∷ []) rest
        (one.loops_now ∙ sym (append_assoc before (l' ∷ []) rest))
        (All-append (λ x. x.at ≡ ended) before (l' ∷ []) done (refl, tt)) one.still_stopped in
    let (k, sum, run) = Steps-trans one.run others.run in
    record {
      reached = others.reached;
      count = k;
      counted = omega (arith, sum, others.counted);
      run = run;
      all_ended = others.all_ended;
      same_stop = others.same_stop ∙ one.same_stop;
    }
