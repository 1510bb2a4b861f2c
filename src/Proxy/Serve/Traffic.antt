-- ===== src/Proxy/Serve/Traffic.antt =====
-- Any number of requests at once: the handler with the requests that wait for their upstreams, under
-- every interleaving of `begin` and `finish`.
use cell_routing_from_scratc.Prelude.{
  ℕ, ◌≤◌, ◌≡◌, refl, ◌≢◌, String, false, none, some, List, [], ◌∷◌, ◌++◌, map, lookup, ap, sym,
  subst, ◌∙◌,
}
use cell_routing_from_scratc.Routing.{ConfigProvider}
use cell_routing_from_scratc.Health
use cell_routing_from_scratc.Limits
use cell_routing_from_scratc.Limits.Agreement.{limit_of}
use cell_routing_from_scratc.Limits.Slots.{
  Reach, here as start_here, next, finish as give_back, Built, start, count, in_flight-le,
  release-ne-none,
}
use cell_routing_from_scratc.Proxy.{Handler}
use cell_routing_from_scratc.Proxy.Exchange.{
  Request, Served, Flight, Begun, answered, forwards, crashed, stuck,
}
use cell_routing_from_scratc.Proxy.Serve.{begin, Upstream, finish}
use cell_routing_from_scratc.Proxy.Serve.Slots.{
  holding, is_stuck, system, begin-Fine, finish-release, finish-blocked,
}

pub record Traffic : Type 0 where
  pub handler : Handler
  pub flights : List Flight
  pub blocked : List String  -- the placements of requests whose Release blocked in `begin`

-- What one arrival adds.
abbrev pub arrived : Traffic → Handler × Begun → Traffic
arrived t (h, forwards f) = record t { handler = h; flights = f ∷ t.flights }
arrived t (h, stuck acquired) = record t { handler = h; blocked = acquired ∷ t.blocked }
arrived t (h, answered s) = record t { handler = h }
arrived t (h, crashed) = record t { handler = h }

-- A request arrives, under whatever configuration the router reads, or one of those that wait is
-- completed, with any outcome, or a goroutine of the health checker makes a check.
pub data Move (t : Traffic) : Traffic → Type 0 where
  arrive :
      (provider : ConfigProvider) (r : Request) (now : ℕ)
      → Move t (arrived t (begin provider t.handler r now))
  complete :
      (before after : List Flight) (f : Flight) (u : Upstream) (now : ℕ) (h : Handler)
      (served : Served)
      → t.flights ≡ before ++ f ∷ after
      → finish t.handler f u now ≡ some (h, served)
      → Move t (record t { handler = h; flights = before ++ after })
  checked :
      (address : ℕ) (outcome : Health.CheckOutcome) (now : ℕ)
      → Move t (record t {
        handler = record t.handler {
          health_checker = Health.perform_check t.handler.health_checker address outcome now;
        };
      })

pub data Moves (t : Traffic) : Traffic → Type 0 where
  here : Moves t t
  then : {u v : Traffic} → Moves t u → Move u v → Moves t v

abbrev pub placements : List Flight → List String
placements = map (λ f. f.acquired)

-- Nothing is stuck, and the slots are as an interleaving of Limits.Slots leaves them.
record IsOrderly (m : Limits.Manager) (t : Traffic) : Type 0 where
  slots : Reach (start m) (system t.handler (placements t.flights))
  free : t.blocked ≡ []

placements-append : (xs ys : List Flight) → placements (xs ++ ys) ≡ placements xs ++ placements ys
placements-append [] ys = refl
placements-append (x ∷ xs) ys = ap (◌∷◌ x.acquired) (placements-append xs ys)

module _ {m : Limits.Manager} (built : Built m) where
  arrived-IsOrderly :
      (t : Traffic) (r : Handler × Begun)
      → t.blocked ≡ []
      → Reach (start m) (system r.0 (holding r.1 (placements t.flights)))
      → is_stuck r.1 ≡ false
      → IsOrderly m (arrived t r)
  arrived-IsOrderly t (h, forwards f) e p n = record { slots = p; free = e }
  arrived-IsOrderly t (h, stuck acquired) e p n = cc
  arrived-IsOrderly t (h, answered s) e p n = record { slots = p; free = e }
  arrived-IsOrderly t (h, crashed) e p n = record { slots = p; free = e }

  Move-IsOrderly : {t u : Traffic} → Move t u → IsOrderly m t → IsOrderly m u
  Move-IsOrderly {t} (arrive provider r now) o =
      let fine = begin-Fine built provider t.handler r now (placements t.flights) o.slots in
      arrived-IsOrderly t (begin provider t.handler r now) o.free fine.0 fine.1
  Move-IsOrderly {t} (complete before after f u now h served split e) o = record {
    slots =
        subst (λ ps. Reach (start m) (system h ps)) (sym (placements-append before after))
          (next o.slots (
            give_back (placements before) (placements after) f.acquired h.limits_manager
              (ap placements split ∙ placements-append before (f ∷ after))
              (finish-release t.handler h f u now served e)));
    free = o.free;
  }
  Move-IsOrderly (checked address outcome now) o = record { slots = o.slots; free = o.free }

  Moves-IsOrderly : {t u : Traffic} → Moves t u → IsOrderly m t → IsOrderly m u
  Moves-IsOrderly here o = o
  Moves-IsOrderly (then r s) o = Move-IsOrderly s (Moves-IsOrderly r o)

-- Before the first request.
abbrev pub quiet : Handler → Traffic
quiet h = record { handler = h; flights = []; blocked = [] }

-- From a handler whose limits were set up before the first request, whatever requests arrive and
-- complete, in any order and with any outcomes and health checks in between: no more requests wait
-- for upstreams under a placement's slot than the placement's limit.
pub flights-le :
    (h : Handler) {t : Traffic} (key : String) (limit : ℕ)
    → Built h.limits_manager
    → Moves (quiet h) t
    → limit_of (lookup key h.limits_manager.config) ≡ some limit
    → count key (placements t.flights) ≤ limit
flights-le h key limit built moves e =
    in_flight-le key limit built
      (Moves-IsOrderly built moves (record { slots = start_here; free = refl })).slots e

-- From a handler whose limits were set up before the first request, whatever requests arrive and
-- complete, in any order and with any outcomes and health checks in between: no request that was
-- turned away is stuck in its deferred Release, and each one that waits for its upstream can be
-- completed, whatever the outcome.
pub never_stuck :
    (h : Handler) {t : Traffic} (before after : List Flight) (f : Flight) (u : Upstream) (now : ℕ)
    → Built h.limits_manager
    → Moves (quiet h) t
    → t.flights ≡ before ++ f ∷ after
    → (t.blocked ≡ []) × (finish t.handler f u now ≢ none)
never_stuck h {t} before after f u now built moves split =
    let o = Moves-IsOrderly built moves (record { slots = start_here; free = refl }) in
    (
      o.free,
      λ e.
          release-ne-none (placements before) (placements after) f.acquired built o.slots
            (ap placements split ∙ placements-append before (f ∷ after))
            (finish-blocked t.handler f u now e),
    )

-- Under the same conditions, no request that arrives is stuck.
pub begin-is_stuck :
    (h : Handler) {t : Traffic} (provider : ConfigProvider) (r : Request) (now : ℕ)
    → Built h.limits_manager
    → Moves (quiet h) t
    → is_stuck (begin provider t.handler r now).1 ≡ false
begin-is_stuck h {t} provider r now built moves =
    let o = Moves-IsOrderly built moves (record { slots = start_here; free = refl }) in
    (begin-Fine built provider t.handler r now (placements t.flights) o.slots).1
