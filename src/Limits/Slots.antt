-- ===== src/Limits/Slots.antt =====
-- Requests that take and give back slots, in any interleaving.
use cell_routing_from_scratc.Prelude.{
  ℕ, suc, ◌-◌, ◌≤◌, ◌≡◌, refl, ◌≢◌, String, Bool, true, false, Option, none, some, List, [], ◌∷◌,
  ◌++◌, ◌==◌, arith, if◌then◌else◌, lookup, lookup-insert, lookup-delete, eq_iff, Option-cases, inl,
  inr, subst, ap, ◌∙◌, sym, ltb, eq_refl,
}
use cell_routing_from_scratc.Prelude.Int.{pos_part}
use cell_routing_from_scratc.Limits.Agreement.{
  Agrees, limit_of, set_config-Agrees, remove_config-Agrees, try_acquire-Agrees, release-Agrees,
}
use cell_routing_from_scratc.Limits.Channel
use cell_routing_from_scratc.Limits.Channel.{Semaphore, new_semaphore}
use cell_routing_from_scratc.Limits.{
  Config, Manager, new_manager, set_config, remove_config, try_acquire, release,
}

-- How many requests of a list are for a placement.
abbrev pub count : String → List String → ℕ
count key [] = 0
count key (j ∷ js) = let rest = count key js in if j == key then suc rest else rest

-- The manager together with the placements of the requests that have passed `TryAcquire` and have
-- not yet called `Release`.
pub record System : Type 0 where
  pub manager : Manager
  pub in_flight : List String

pub data Step (s : System) : System → Type 0 where
  admit :
      (key : String) (m : Manager)
      → try_acquire s.manager key ≡ (m, true)
      → Step s (record { manager = m; in_flight = key ∷ s.in_flight })
  reject :
      (key : String) (m : Manager)
      → try_acquire s.manager key ≡ (m, false)
      → Step s (record { manager = m; in_flight = s.in_flight })
  finish :
      (before after : List String) (key : String) (m : Manager)
      → s.in_flight ≡ before ++ key ∷ after
      → release s.manager key ≡ some m
      → Step s (record { manager = m; in_flight = before ++ after })

pub data Reach (s : System) : System → Type 0 where
  here : Reach s s
  next : {t u : System} → Reach s t → Step t u → Reach s u

-- A manager as the start-up code leaves it.
pub data Built : Manager → Type 0 where
  fresh : Built new_manager
  configured : {m : Manager} (key : String) (c : Config) → Built m → Built (set_config m key c)
  removed : {m : Manager} (key : String) → Built m → Built (remove_config m key)

-- A placement's semaphore, if it has one, holds one value for each of `n` requests, within its capacity.
abbrev Fits : Manager → String → ℕ → Type 0
Fits m key n =
    (sem : Semaphore)
    → lookup key m.semaphores ≡ some sem
    → (sem.held ≡ n) × (sem.held ≤ sem.capacity)

Built-Fits : {m : Manager} → Built m → (key : String) → Fits m key 0
unfolding lookup new_manager set_config remove_config new_semaphore
Built-Fits fresh key sem e = cc
Built-Fits (configured {m = m} at c b) key sem e = ground (
  arith,
  Built-Fits b key sem,
  lookup-insert at key (new_semaphore (pos_part c.max_concurrent_requests)) m.semaphores,
  lookup-delete at key m.semaphores,
)
Built-Fits (removed {m = m} at b) key sem e =
    ground (arith, Built-Fits b key sem, lookup-delete at key m.semaphores)

Built-Agrees : {m : Manager} → Built m → (key : String) → Agrees m key
unfolding lookup new_manager
Built-Agrees fresh key = refl
Built-Agrees (configured {m = m} at c b) key = set_config-Agrees m at c key (Built-Agrees b key)
Built-Agrees (removed {m = m} at b) key = remove_config-Agrees m at key (Built-Agrees b key)

try_acquire-Fits :
    (m m' : Manager) (at key : String) (n : ℕ)
    → try_acquire m at ≡ (m', true)
    → Fits m key n
    → Fits m' key (if at == key then suc n else n)
unfolding try_acquire Channel.try_acquire
try_acquire-Fits m m' at key n e h sem found = elim (Option-cases (lookup at m.semaphores)) [
  | inl free ↦ ground (arith, eq_iff at key, free, h sem)
  | inr (old, at_old) ↦ ground (
    arith,
    eq_iff at key,
    lookup-insert at key (Channel.try_acquire old).0 m.semaphores,
    h sem,
    h old,
  )
]

reject-Fits :
    (m m' : Manager) (at key : String) (n : ℕ)
    → try_acquire m at ≡ (m', false)
    → Fits m key n
    → Fits m' key n
unfolding try_acquire Channel.try_acquire
reject-Fits m m' at key n e h sem found = elim (Option-cases (lookup at m.semaphores)) [
  | inl free ↦ ground (arith, free)
  | inr (old, at_old) ↦ ground (
    arith,
    eq_iff at key,
    lookup-insert at key (Channel.try_acquire old).0 m.semaphores,
    h sem,
    h old,
  )
]

release-Fits :
    (m m' : Manager) (at key : String) (n : ℕ)
    → release m at ≡ some m'
    → Fits m key (if at == key then suc n else n)
    → Fits m' key n
unfolding release Channel.release
release-Fits m m' at key n e h sem found = elim (Option-cases (lookup at m.semaphores)) [
  | inl free ↦ ground (arith, eq_iff at key, free, h sem)
  | inr (old, at_old) ↦ ground (
    arith,
    eq_iff at key,
    lookup-insert at key (record old { held = old.held - 1 }) m.semaphores,
    h sem,
    h old,
  )
]

count-middle :
    (key at : String) (before after : List String)
    → count key (before ++ at ∷ after)
      ≡ (if at == key then suc (count key (before ++ after)) else count key (before ++ after))
count-middle key at [] after = refl
count-middle key at (x ∷ before) after = ground (arith, count-middle key at before after)

-- What every state reached from a built manager satisfies, at each placement.
record IsTracked (s : System) (key : String) : Type 0 where
  fits : Fits s.manager key (count key s.in_flight)
  agrees : Agrees s.manager key

Step-IsTracked : {s t : System} → Step s t → (key : String) → IsTracked s key → IsTracked t key
Step-IsTracked {s} (admit at m e) key h = record {
  fits = try_acquire-Fits s.manager m at key _ e h.fits;
  agrees = subst (λ r. Agrees r.0 key) e (try_acquire-Agrees s.manager at key h.agrees);
}
Step-IsTracked {s} (reject at m e) key h = record {
  fits = reject-Fits s.manager m at key _ e h.fits;
  agrees = subst (λ r. Agrees r.0 key) e (try_acquire-Agrees s.manager at key h.agrees);
}
Step-IsTracked {s} (finish before after at m split e) key h = record {
  fits =
      release-Fits s.manager m at key (count key (before ++ after)) e (
        subst (Fits s.manager key) (ap (count key) split ∙ count-middle key at before after)
          h.fits);
  agrees = release-Agrees s.manager at key m e h.agrees;
}

-- Before the first request.
abbrev pub start : Manager → System
start m = record { manager = m; in_flight = [] }

Reach-IsTracked :
    {m : Manager} {s : System} → Built m → Reach (start m) s → (key : String) → IsTracked s key
Reach-IsTracked b here key = record { fits = Built-Fits b key; agrees = Built-Agrees b key }
Reach-IsTracked b (next r st) key = Step-IsTracked st key (Reach-IsTracked b r key)

try_acquire-config : (m : Manager) (at : String) → (try_acquire m at).0.config ≡ m.config
unfolding try_acquire Channel.try_acquire
try_acquire-config m at = ground arith

release-config : (m m' : Manager) (at : String) → release m at ≡ some m' → m'.config ≡ m.config
unfolding release Channel.release
release-config m m' at e = ground arith

Reach-config : {m : Manager} {s : System} → Reach (start m) s → s.manager.config ≡ m.config
Reach-config here = refl
Reach-config (next {t = t} r (admit at m' e)) =
    sym (ap (λ x. x.0.config) e) ∙ try_acquire-config t.manager at ∙ Reach-config r
Reach-config (next {t = t} r (reject at m' e)) =
    sym (ap (λ x. x.0.config) e) ∙ try_acquire-config t.manager at ∙ Reach-config r
Reach-config (next {t = t} r (finish before after at m' split e)) =
    release-config t.manager m' at e ∙ Reach-config r

-- Whether a request may join `n` others under a limit, if there is one.
abbrev pub has_room : Option ℕ → ℕ → Bool
has_room none n = true
has_room (some limit) n = ltb n limit

tracked-has_room :
    (s : System) (key : String)
    → IsTracked s key
    → (try_acquire s.manager key).1
      ≡ has_room (limit_of (lookup key s.manager.config)) (count key s.in_flight)
unfolding try_acquire Channel.try_acquire
tracked-has_room s key h = elim (Option-cases (lookup key s.manager.semaphores)) [
  | inl free ↦ rw (← h.agrees) (rw (free, try_acquire))
  | inr (sem, found) ↦ rw (← h.agrees) (rw (found, try_acquire) (ground (arith, h.fits sem found)))
]

-- In every interleaving of requests that start and finish, `TryAcquire` admits a request exactly if
-- its placement has no limit or has fewer requests in flight than its limit.
pub try_acquire-has_room :
    {m : Manager} {s : System} (key : String)
    → Built m
    → Reach (start m) s
    → (try_acquire s.manager key).1
      ≡ has_room (limit_of (lookup key m.config)) (count key s.in_flight)
try_acquire-has_room {m} {s} key b r =
    tracked-has_room s key (Reach-IsTracked b r key)
    ∙ ap (λ c. has_room (limit_of (lookup key c)) (count key s.in_flight)) (Reach-config r)

tracked-le :
    (s : System) (key : String) (limit : ℕ)
    → IsTracked s key
    → limit_of (lookup key s.manager.config) ≡ some limit
    → count key s.in_flight ≤ limit
tracked-le s key limit h e = elim (Option-cases (lookup key s.manager.semaphores)) [
  | inl free ↦ absurd (ground (arith, h.agrees, free))
  | inr (sem, found) ↦ ground (arith, h.agrees, found, h.fits sem found)
]

-- In every interleaving the requests in flight at a placement never outnumber its configured limit.
pub in_flight-le :
    {m : Manager} {s : System} (key : String) (limit : ℕ)
    → Built m
    → Reach (start m) s
    → limit_of (lookup key m.config) ≡ some limit
    → count key s.in_flight ≤ limit
in_flight-le {m} {s} key limit b r e =
    tracked-le s key limit (Reach-IsTracked b r key)
      (ap (λ c. limit_of (lookup key c)) (Reach-config r) ∙ e)

-- In every interleaving a request that was admitted can give its slot back: `Release` does not block.
pub release-ne-none :
    {m : Manager} {s : System} (before after : List String) (key : String)
    → Built m
    → Reach (start m) s
    → s.in_flight ≡ before ++ key ∷ after
    → release s.manager key ≢ none
unfolding release Channel.release
release-ne-none {m} {s} before after key b r split =
    elim (Option-cases (lookup key s.manager.semaphores)) [
      | inl free ↦ ground (arith, free)
      | inr (sem, found) ↦ ground (
        arith,
        found,
        (Reach-IsTracked b r key).fits sem found,
        ap (count key) split,
        count-middle key key before after,
        eq_refl key,
      )
    ]
