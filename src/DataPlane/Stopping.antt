-- ===== src/DataPlane/Stopping.antt =====
-- internal/dataplane/client.go: `Stop` beside the goroutine of the connection loop, at the grain of the
-- mutex, the channel operations and the network calls. A dial holds the mutex; of the connection only
-- counts whether it is open, and what the peer does is any choice of a step.
use cell_routing_from_scratc.Prelude.{
  ℕ, suc, ◌+◌, ◌≤◌, ◌≡◌, refl, ◌≢◌, ◌⊎◌, inl, inr, Bool, true, false, Option, none, some, arith,
  if◌then◌else◌, ap,
}

-- Where the loop is: at the select, at the reading of `reconnect`, past it, in the dial, in a read or
-- in the sleep.
pub data LoopAt : Type 0 where
  selecting checking ready dialling reading sleeping ended : LoopAt

-- Where Stop is: not called, past its block under the mutex, past the close of stopCh.
pub data StopAt : Type 0 where
  uncalled unlocked waiting returned : StopAt

pub record Running : Type 0 where
  pub loop : LoopAt
  pub stop : StopAt
  pub reconnect : Bool
  pub stop_closed : Bool
  pub conn : Option Bool  -- whether c.conn is open, if it is there

-- NewClient and Start.
abbrev pub started : Running
started = record {
  loop = selecting;
  stop = uncalled;
  reconnect = true;
  stop_closed = false;
  conn = none;
}

abbrev pub closed : Option Bool → Option Bool
closed none = none
closed (some is_open) = some false

abbrev pub is_open : Option Bool → Bool
is_open none = false
is_open (some b) = b

-- A step of the connection loop.
pub data LoopStep (s : Running) : Running → Type 0 where
  selects :
      s.loop ≡ selecting
      → LoopStep s (record s { loop = if s.stop_closed then ended else checking })
  checks : s.loop ≡ checking → LoopStep s (record s { loop = if s.reconnect then ready else ended })
  dials : s.loop ≡ ready → LoopStep s (record s { loop = dialling })
  connects : s.loop ≡ dialling → LoopStep s (record s { loop = reading; conn = some true })
  dial_fails : s.loop ≡ dialling → LoopStep s (record s { loop = sleeping })
  wakes : s.loop ≡ sleeping → LoopStep s (record s { loop = selecting })
  reads : s.loop ≡ reading → s.conn ≡ some true → LoopStep s s
  read_fails : s.loop ≡ reading → LoopStep s (record s { loop = selecting; conn = closed s.conn })

-- A step of the goroutine that calls Stop. It takes the mutex, which a dial holds.
pub data StopStep (s : Running) : Running → Type 0 where
  closes_conn :
      s.stop ≡ uncalled
      → s.loop ≢ dialling
      → StopStep s (record s { stop = unlocked; reconnect = false; conn = closed s.conn })
  closes_channel : s.stop ≡ unlocked → StopStep s (record s { stop = waiting; stop_closed = true })
  returns : s.stop ≡ waiting → s.loop ≡ ended → StopStep s (record s { stop = returned })

closed-ne : (c : Option Bool) → closed c ≢ some true
closed-ne none e = cc
closed-ne (some is_open) e = cc

-- `Run s n t`: from s to t, with n steps of the loop among any of Stop.
pub data Run (s : Running) : ℕ → Running → Type 0 where
  here : Run s 0 s
  loops : {n : ℕ} {t u : Running} → Run s n t → LoopStep t u → Run s (suc n) u
  stops : {n : ℕ} {t u : Running} → Run s n t → StopStep t u → Run s n u

-- Stop has been through its block, and the loop is not on its way to a new connection.
record IsQuiet (s : Running) : Type 0 where
  parted : s.reconnect ≡ false
  cut : s.conn ≢ some true
  not_ready : s.loop ≢ ready
  not_dialling : s.loop ≢ dialling

abbrev rank : LoopAt → ℕ
rank ended = 0
rank checking = 1
rank selecting = 2
rank sleeping = 3
rank reading = 3
rank ready = 4
rank dialling = 4

LoopStep-IsQuiet :
    {s t : Running} → LoopStep s t → IsQuiet s → IsQuiet t × (suc (rank t.loop) ≤ rank s.loop)
LoopStep-IsQuiet {s} (selects e) q = ground arith
LoopStep-IsQuiet {s} (checks e) q = ground arith
LoopStep-IsQuiet {s} (dials e) q = absurd (q.not_ready e)
LoopStep-IsQuiet {s} (connects e) q = absurd (q.not_dialling e)
LoopStep-IsQuiet {s} (dial_fails e) q = absurd (q.not_dialling e)
LoopStep-IsQuiet {s} (wakes e) q = ground arith
LoopStep-IsQuiet {s} (reads e o) q = absurd (q.cut o)
LoopStep-IsQuiet {s} (read_fails e) q = ground arith

StopStep-IsQuiet : {s t : Running} → StopStep s t → IsQuiet s → IsQuiet t × (t.loop ≡ s.loop)
StopStep-IsQuiet (closes_conn e free) q = ground arith
StopStep-IsQuiet (closes_channel e) q = ground arith
StopStep-IsQuiet (returns e over) q = ground arith

Run-IsQuiet :
    {s t : Running} {n : ℕ} → Run s n t → IsQuiet s → IsQuiet t × (n + rank t.loop ≤ rank s.loop)
Run-IsQuiet here q = (q, omega arith)
Run-IsQuiet (loops r l) q =
    let (q', far) = Run-IsQuiet r q in let (q'', less) = LoopStep-IsQuiet l q' in (q'', omega arith)
Run-IsQuiet (stops r l) q =
    let (q', far) = Run-IsQuiet r q in
    let (q'', same) = StopStep-IsQuiet l q' in (q'', ground (arith, same))

-- Whether a step of the loop waits for the other side: a dial, or a read from a connection that Stop has
-- not closed.
unfoldable pub waits_for_peer : {s t : Running} → LoopStep s t → Bool
waits_for_peer (selects e) = false
waits_for_peer (checks e) = false
waits_for_peer (dials e) = false
waits_for_peer (connects e) = true
waits_for_peer (dial_fails e) = true
waits_for_peer (wakes e) = false
waits_for_peer (reads e o) = true
waits_for_peer {s} (read_fails e) = is_open s.conn

cut-is_open : (c : Option Bool) → c ≢ some true → is_open c ≡ false
cut-is_open none n = refl
cut-is_open (some false) n = refl
cut-is_open (some true) n = absurd (n refl)

-- The loop has ended, or has a step that does not wait for the other side.
pub GoesOn : Running → Type 0
GoesOn u = (u.loop ≡ ended) ⊎ ((v : Running) × (l : LoopStep u v) × (waits_for_peer l ≡ false))

IsQuiet-GoesOn : (s : Running) → IsQuiet s → GoesOn s
unfolding waits_for_peer GoesOn
IsQuiet-GoesOn s q = at s.loop refl
  where
    at : (l : LoopAt) → s.loop ≡ l → GoesOn s
    at selecting e = inr (_, selects e, refl)
    at checking e = inr (_, checks e, refl)
    at ready e = absurd (q.not_ready e)
    at dialling e = absurd (q.not_dialling e)
    at reading e = inr (_, read_fails e, cut-is_open s.conn q.cut)
    at sleeping e = inr (_, wakes e, refl)
    at ended e = inl e

rank-le : (l : LoopAt) → l ≢ ready → l ≢ dialling → rank l ≤ 3
rank-le selecting r d = omega arith
rank-le checking r d = omega arith
rank-le ready r d = absurd (r refl)
rank-le dialling r d = absurd (d refl)
rank-le reading r d = omega arith
rank-le sleeping r d = omega arith
rank-le ended r d = omega arith

-- What Stop does under the mutex, at a moment when the loop has not just read that it may reconnect.
closes-IsQuiet : {s t : Running} → StopStep s t → s.stop ≡ uncalled → s.loop ≢ ready → IsQuiet t
closes-IsQuiet {s} (closes_conn e free) at off = record {
  parted = refl;
  cut = closed-ne s.conn;
  not_ready = off;
  not_dialling = free;
}
closes-IsQuiet (closes_channel e) at off = absurd (ground (arith, e, at))
closes-IsQuiet (returns e over) at off = absurd (ground (arith, e, at))

-- If Stop gets through its block under the mutex, its first step, at a moment when the loop has not just read
-- that it may reconnect, the loop makes at most three more steps, and at any time until it has ended there
-- is a step that it can make and that waits neither for a dial nor for an open connection: Stop does not
-- wait for ever.
pub stop_ends :
    {s t u : Running} {n : ℕ}
    → s.stop ≡ uncalled
    → s.loop ≢ ready
    → StopStep s t
    → Run t n u
    → (n ≤ 3) × GoesOn u
stop_ends {t = t} {u = u} first off step run =
    let q = closes-IsQuiet step first off in
    let (q', far) = Run-IsQuiet run q in
    (omega (arith, far, rank-le t.loop q.not_ready q.not_dialling), IsQuiet-GoesOn u q')

-- Stop waits, and nothing ends its wait but a failure of the new connection: Stop has no step, and the
-- loop's steps are to read a message and be as before, or to find the connection failed.
pub record Hangs (s : Running) : Type 0 where
  pub waits : s.stop ≡ waiting
  pub connected : s.conn ≡ some true
  pub no_return : (t : Running) → StopStep s t → ⊥
  pub reading_on :
      (t : Running)
      → LoopStep s t
      → (t ≡ s) ⊎ (t ≡ record s { loop = selecting; conn = some false })

hung : (s : Running) → s.stop ≡ waiting → s.loop ≡ reading → s.conn ≡ some true → Hangs s
hung s w r c = record { waits = w; connected = c; no_return = no_return; reading_on = reading_on }
  where
    no_return : (t : Running) → StopStep s t → ⊥
    no_return t (closes_conn e free) = ground (arith, w, e)
    no_return t (closes_channel e) = ground (arith, w, e)
    no_return t (returns e over) = ground (arith, r, over)

    reading_on :
        (t : Running)
        → LoopStep s t
        → (t ≡ s) ⊎ (t ≡ record s { loop = selecting; conn = some false })
    reading_on t (selects e) = absurd (ground (arith, r, e))
    reading_on t (checks e) = absurd (ground (arith, r, e))
    reading_on t (dials e) = absurd (ground (arith, r, e))
    reading_on t (connects e) = absurd (ground (arith, r, e))
    reading_on t (dial_fails e) = absurd (ground (arith, r, e))
    reading_on t (wakes e) = absurd (ground (arith, r, e))
    reading_on t (reads e o) = inl refl
    reading_on t (read_fails e) = inr (ap (λ o. record s { loop = selecting; conn = closed o }) c)

-- If Stop gets through its block just after the loop has read that it may reconnect, the loop may dial a new
-- connection, which Stop does not know of; then Stop waits until that connection fails.
pub stop_may_hang :
    (s : Running) → s.stop ≡ uncalled → s.loop ≡ ready → (t : Running) × Run s 2 t × Hangs t
stop_may_hang s off at = (
  record s {
    loop = reading;
    stop = waiting;
    reconnect = false;
    stop_closed = true;
    conn = some true;
  },
  loops
      (loops
        (stops (stops here (closes_conn off (λ e. ground (arith, at, e)))) (closes_channel refl))
        (dials at))
      (connects refl),
  hung _ refl refl refl,
)
