-- ===== src/Process/Shutdown.antt =====
-- cmd/router/main.go: the deferred calls that main makes on its way out, the last one deferred first.
use cell_routing_from_scratc.Prelude.{
  [], ◌∷◌, ℕ, ◌≡◌, refl, inl, inr, String, Bool, true, false, Option, none, some, List, All, ok,
  arith, ap, sym, ◌∙◌, subst, Bool-cases, ◌==◌,
}
use cell_routing_from_scratc.Config.{Library}
use cell_routing_from_scratc.Loader
use cell_routing_from_scratc.Loader.{Loader, get_config}
use cell_routing_from_scratc.Loader.LastKnownGood.{try_reload-Reloaded}
use cell_routing_from_scratc.DataPlane
use cell_routing_from_scratc.DataPlane.{Codec, Client, handle_message}
use cell_routing_from_scratc.Health
use cell_routing_from_scratc.Proxy
use cell_routing_from_scratc.Proxy.{Handler, new_handler}
use cell_routing_from_scratc.Proxy.Checkers.{CheckersRun, IsRunning, new_handler-IsRunning}
use cell_routing_from_scratc.Proxy.Serve.Frozen.{begin-kept, finish-kept}
use cell_routing_from_scratc.Process.{
  Process, startup, Step, ticks, connects, hears, begins, finishes, checks, Steps, here, next,
  client_of, with_loader,
}
use cell_routing_from_scratc.Process.Startup.{startup-Started}

-- A deferred call.
pub data Deferred : Type 0 where
  handler_stop client_stop loader_stop : Deferred

-- The statement `defer` puts a call on top of those deferred before.
abbrev pub defers : Deferred → List Deferred → List Deferred
defers d earlier = d ∷ earlier

-- The two statements in their order.
abbrev pub deferred : Process → List Deferred
deferred p =
    defers handler_stop
      (elim p.client [ none ↦ defers loader_stop [] | some c ↦ defers client_stop [] ])

stop_client : Process → Option Client → Option Process
stop_client p none = some p
stop_client p (some c) = elim (DataPlane.stop c) [
  | none ↦ none
  | some c' ↦ some (record p { client = some c' })
]

-- `none` is the panic of a second close of a channel.
call : Process → Deferred → Option Process
unfolding stop_client
call p handler_stop = elim (Proxy.stop p.handler) [
  | none ↦ none
  | some h ↦ some (record p { handler = h })
]
call p client_stop = stop_client p p.client
call p loader_stop = elim (Loader.stop p.loader) [
  | none ↦ none
  | some loader ↦ some (record p { loader = loader })
]

-- The calls, from the top on, and the processes that each of them leaves.
pub run_deferred : Process → List Deferred → Option (Process × List (Deferred × Process))
unfolding call
run_deferred p [] = some (p, [])
run_deferred p (d ∷ earlier) = elim (call p d) [
  | none ↦ none
  | some q ↦ elim (run_deferred q earlier) [
    | none ↦ none
    | some (final, calls) ↦ some (final, (d, q) ∷ calls)
  ]
]

unfoldable pub shutdown : Process → Option (Process × List (Deferred × Process))
unfolding run_deferred
shutdown p = run_deferred p (deferred p)

-- A client is there unless the process is alone, and has not been stopped.
abbrev ClientRuns : (alone : Bool) → Option Client → Type 0
ClientRuns true o = o ≡ none
ClientRuns false o = (c : Client) × (o ≡ some c) × (c.stopped ≡ false)

-- Nothing that `shutdown` closes has been closed.
abbrev Runs : (alone : Bool) → Process → Type 0
Runs alone p = IsRunning p.handler × (p.loader.stopped ≡ false) × ClientRuns alone p.client

try_reload-stopped :
    (lib : Library) (l l' : Loader) (checksum_read load_read : Option (List ℕ)) (now : ℕ)
    → Loader.try_reload lib l checksum_read load_read now ≡ some l'
    → l'.stopped ≡ l.stopped
try_reload-stopped lib l l' checksum_read load_read now e =
    elim (try_reload-Reloaded lib l l' checksum_read load_read now e) [
      | inl same ↦ ap (λ x. x.stopped) same
      | inr r ↦ r.running
    ]

perform_check-stopped :
    (c : Health.Checker) (address : ℕ) (outcome : Health.CheckOutcome) (now : ℕ)
    → (Health.perform_check c address outcome now).stopped ≡ c.stopped
unfolding Health.perform_check
perform_check-stopped c address outcome now = refl

handle_message-stopped :
    (codec : Codec) (c : Client) (bytes : List ℕ) (now : ℕ)
    → ((handle_message codec c bytes now).0.stopped ≡ c.stopped)
      × ((handle_message codec c bytes now).0.loader.stopped ≡ c.loader.stopped)
unfolding handle_message DataPlane.handle_config_snapshot Loader.apply_config
handle_message-stopped codec c bytes now = ground arith

load_initial-stopped :
    (lib : Library) (l l' : Loader) (load_read checksum_read : Option (List ℕ)) (now : ℕ)
    → Loader.load_initial lib l load_read checksum_read now ≡ ok l'
    → l'.stopped ≡ l.stopped
unfolding Loader.load_initial
load_initial-stopped lib l l' load_read checksum_read now e = ground arith

Client-cases :
    (alone : Bool) (o : Option Client) (c : Client)
    → o ≡ some c
    → ClientRuns alone o
    → (alone ≡ false) × (c.stopped ≡ false)
Client-cases true o c e runs = absurd (ground (arith, e, runs))
Client-cases false o c e (c', e', runs) = (refl, ground (arith, e, e', runs))

module _ (lib : Library) (codec : Codec) (alone : Bool) where
  Step-Runs : {p q : Process} → Step lib codec p q → Runs alone p → Runs alone q
  Step-Runs {p} (ticks checksum_read load_read now loader on e) (h_runs, l_runs, c_runs) = (
    h_runs,
    try_reload-stopped lib p.loader loader checksum_read load_read now e ∙ l_runs,
    c_runs,
  )
  Step-Runs (connects c conn e) (h_runs, l_runs, c_runs) =
      let (with_client, runs) = Client-cases alone _ c e c_runs in
      (h_runs, l_runs, rw with_client (record c { conn = some conn }, refl, runs))
  Step-Runs {p} (hears c bytes now e) (h_runs, l_runs, c_runs) =
      let (with_client, runs) = Client-cases alone _ c e c_runs in
      let same = handle_message-stopped codec (with_loader c p.loader) bytes now in
      (h_runs, same.1 ∙ l_runs, rw with_client (_, refl, same.0 ∙ runs))
  Step-Runs {p} (begins provider r now) (h_runs, l_runs, c_runs) = (
    subst CheckersRun (ap (λ x. (x.1, x.2)) (sym (begin-kept provider p.handler r now))) h_runs,
    l_runs,
    c_runs,
  )
  Step-Runs {p} (finishes f u now h served e) (h_runs, l_runs, c_runs) = (
    subst CheckersRun (ap (λ x. (x.1, x.2)) (sym (finish-kept p.handler h f u now served e)))
        h_runs,
    l_runs,
    c_runs,
  )
  Step-Runs (checks address outcome now) (h_runs, l_runs, c_runs) =
      ((perform_check-stopped _ address outcome now ∙ h_runs.0, h_runs.1), l_runs, c_runs)

  Steps-Runs : {p q : Process} → Steps lib codec p q → Runs alone p → Runs alone q
  Steps-Runs here r = r
  Steps-Runs (next m s) r = Step-Runs s (Steps-Runs m r)

-- What main has stopped when it returns: the reload loop, or the client.
pub SourceStopped : (alone : Bool) → Process → Type 0
SourceStopped true p = (p.client ≡ none) × (p.loader.stopped ≡ true)
SourceStopped false p =
    (c : Client) × (p.client ≡ some c)
    × (c.stopped ≡ true)
    × (c.reconnect ≡ false)
    × (p.loader.stopped ≡ false)

abbrev pub source_stop : (alone : Bool) → Deferred
source_stop true = loader_stop
source_stop false = client_stop

-- `mid` is the process between the two calls: in it the source of the configuration runs still.
pub record Ended (alone : Bool) (p mid s : Process) : Type 0 where
  pub after : shutdown p ≡ some (s, (handler_stop, mid) ∷ (source_stop alone, s) ∷ [])
  pub checks_end_first : mid.handler.health_checker.stopped ≡ true
  pub source_runs : (mid.loader ≡ p.loader) × (mid.client ≡ p.client)
  pub checks_ended : s.handler.health_checker.stopped ≡ true
  pub earlier_checks_run : All (λ c. c.stopped ≡ false) s.handler.retired
  pub source_ends : SourceStopped alone s

stops_handler : Process → Process
stops_handler p = record p {
  handler = record p.handler {
    health_checker = record p.handler.health_checker { stopped = true };
  };
}

shutdown-Ended :
    (alone : Bool) (p : Process)
    → Runs alone p
    → (mid : Process) × (s : Process) × Ended alone p mid s
unfolding shutdown run_deferred call stop_client Proxy.stop Health.stop Loader.stop DataPlane.stop
    SourceStopped stops_handler
shutdown-Ended true p r = (
  stops_handler p,
  record (stops_handler p) { loader = record p.loader { stopped = true } },
  record {
    after = ground (arith, r.0.0, r.2, r.1);
    checks_end_first = refl;
    source_runs = (refl, refl);
    checks_ended = refl;
    earlier_checks_run = r.0.1;
    source_ends = (r.2, refl);
  },
)
shutdown-Ended false p r =
    let (c, found, runs) = r.2 in
    (
      stops_handler p,
      record (stops_handler p) { client = some (record c { stopped = true; reconnect = false }) },
      record {
        after = ground (arith, r.0.0, found, runs);
        checks_end_first = refl;
        source_runs = (refl, refl);
        checks_ended = refl;
        earlier_checks_run = r.0.1;
        source_ends = (_, refl, refl, refl, r.1);
      },
    )

startup-Runs :
    (lib : Library) (getenv : String → String) (load_read checksum_read : Option (List ℕ)) (now : ℕ)
    (p : Process)
    → startup lib getenv load_read checksum_read now ≡ ok p
    → Runs (getenv "CONTROL_PLANE_URL" == "") p
unfolding client_of DataPlane.new_client Loader.new_loader
startup-Runs lib getenv load_read checksum_read now p e =
    let s = startup-Started lib getenv load_read checksum_read now p e in
    (
      new_handler-IsRunning lib s.cfg p.handler s.built,
      load_initial-stopped lib _ p.loader load_read checksum_read now s.loaded,
      elim (Bool-cases (getenv "CONTROL_PLANE_URL" == "")) [
        | inl none_there ↦ rw none_there (ground (arith, s.client, none_there))
        | inr with_client ↦ rw with_client (
          DataPlane.new_client (getenv "CONTROL_PLANE_URL") p.loader,
          ground (arith, s.client, with_client),
          refl,
        )
      ],
    )

-- Whenever a router that has started shuts down, after any course of requests, checks, reloads and
-- messages, main makes two deferred calls, which close channels that were open and so do not panic: the first
-- stops the handler's health checker, while the source of the configuration is still as it was, and the second
-- the client, if there is a control plane, or else the reload loop. The health checkers that NewHandler has
-- replaced by later ones are not stopped.
pub shutdown_total :
    (lib : Library) (codec : Codec) (getenv : String → String)
    (load_read checksum_read : Option (List ℕ)) (now : ℕ) (p : Process) {q : Process}
    → startup lib getenv load_read checksum_read now ≡ ok p
    → Steps lib codec p q
    → (mid : Process) × (s : Process) × Ended (getenv "CONTROL_PLANE_URL" == "") q mid s
shutdown_total lib codec getenv load_read checksum_read now p {q} e steps =
    let alone = getenv "CONTROL_PLANE_URL" == "" in
    shutdown-Ended alone q
      (Steps-Runs lib codec alone steps (startup-Runs lib getenv load_read checksum_read now p e))
