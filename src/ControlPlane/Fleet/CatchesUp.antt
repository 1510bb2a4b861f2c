-- ===== src/ControlPlane/Fleet/CatchesUp.antt =====
-- How a connected data plane comes to the version that its control plane watches.
use cell_routing_from_scratc.Prelude.{
  ℕ, ◌≡◌, refl, String, Bool, true, false, ◌==◌, none, some, List, [], ◌∷◌, ◌++◌, arith, ap, sym,
  ◌∙◌, Bool-cases, Option-cases, inl, inr, subst, not,
}
use mathlib.Core.List.{append-nil}
use cell_routing_from_scratc.Config.{Config, Library}
use cell_routing_from_scratc.Loader.{Loader, get_config}
use cell_routing_from_scratc.Protocol.{ConfigSnapshotMessage}
use cell_routing_from_scratc.DataPlane.{Codec, config_of, handle_message}
use cell_routing_from_scratc.DataPlane.Snapshots.{
  snapshot_in, handle_message-active, handle_message-conn,
}
use cell_routing_from_scratc.ControlPlane.{
  Server, unregister_client, watch_load, broadcast_load, broadcast_to, snapshot_of, register_client,
}
use cell_routing_from_scratc.ControlPlane.Received.{listed}
use cell_routing_from_scratc.ControlPlane.Fleet.{
  Fleet, delivered, Watch, waiting, changed, sending, Move, reloads, looks, loads, broadcasts,
  connects, greets, writes, hears, loses, joins, leaves, Moves, here, next,
}
use cell_routing_from_scratc.ControlPlane.Fleet.Newest.{
  newest, listed-removed, apart-same_conn, listed-register, newest-broadcast,
}

-- A data plane that is a client of the control plane by this connection and has got its first snapshot.
abbrev pub IsClient : ℕ → Fleet → Type 0
IsClient conn s =
    (s.client.conn ≡ some conn)
    × (listed conn s.server.clients ≡ true)
    × (s.greeted ≡ true)
    × (s.unsent ≡ [])

-- What the data plane has or will have read is of the version that is watched.
IsAhead : Fleet → Type 0
IsAhead s =
    (cfg : Config) × (newest s.client.loader.active_config s.wire ≡ some cfg)
    × (cfg.version ≡ s.watched)

-- What a broadcast of the version that was found loads, or has loaded, is of that version.
abbrev Agrees : Loader → Watch → Type 0
Agrees l waiting = Unit
Agrees l (changed v) = (cfg : Config) × (get_config l ≡ some cfg) × (cfg.version ≡ v)
Agrees l (sending v m) = m.version ≡ v

abbrev is_between_loads : Watch → Bool
is_between_loads waiting = false
is_between_loads (changed v) = true
is_between_loads (sending v m) = false

Agrees-reloads : (l l' : Loader) (w : Watch) → is_between_loads w ≡ false → Agrees l w → Agrees l' w
Agrees-reloads l l' waiting apart h = tt
Agrees-reloads l l' (changed v) apart h = cc
Agrees-reloads l l' (sending v m) apart h = h

looks-Agrees :
    (s : Server) (last v : String)
    → watch_load last s ≡ some (some v)
    → Agrees s.config_loader (changed v)
unfolding watch_load
looks-Agrees s last v e = elim (Option-cases (get_config s.config_loader)) [
  | inl none_yet ↦ absurd (ground (arith, none_yet, e))
  | inr (cfg, active) ↦ elim (Bool-cases (cfg.version == last)) [
    | inl same ↦ absurd (ground (arith, active, same, e))
    | inr differs ↦ (cfg, active, ground (arith, active, differs, e))
  ]
]

loads-Agrees :
    (s : Server) (v : String) (m : ConfigSnapshotMessage)
    → broadcast_load s ≡ some m
    → Agrees s.config_loader (changed v)
    → m.version ≡ v
unfolding broadcast_load
loads-Agrees s v m e (cfg, active, version) =
    let new : snapshot_of cfg ≡ m = ground (arith, active, e) in
    ap (λ x. x.version) (sym new) ∙ version

module _ (lib : Library) (codec : Codec) where
  -- Neither a new connection of the data plane nor a loss of the one it has, nor a reload between the two
  -- loads of a tick.
  abbrev pub stays_connected : {s t : Fleet} → Move lib codec s t → Bool
  stays_connected (connects conn) = false
  stays_connected (loses conn own) = false
  stays_connected {s} (reloads checksum_read load_read now l e) = not (is_between_loads s.watch)
  stays_connected (looks v idle e) = true
  stays_connected (loads v m at e) = true
  stays_connected (broadcasts v m at) = true
  stays_connected (greets conn first own fresh e) = true
  stays_connected writes = true
  stays_connected (hears m rest bytes now e r) = true
  stays_connected (joins conn) = true
  stays_connected (leaves conn other) = true

  abbrev pub StayConnected : {s t : Fleet} → Moves lib codec s t → Type 0
  StayConnected here = Unit
  StayConnected (next m step) = (stays_connected step ≡ true) × StayConnected m

  record Follows (conn : ℕ) (s : Fleet) : Type 0 where
    client : IsClient conn s
    agrees : Agrees s.server.config_loader s.watch

  Move-Follows :
      (conn : ℕ) {s t : Fleet} (step : Move lib codec s t)
      → stays_connected step ≡ true
      → Follows conn s
      → Follows conn t
  unfolding unregister_client register_client
  Move-Follows conn {s} (connects other) stays f = cc
  Move-Follows conn {s} (loses other own) stays f = cc
  Move-Follows conn {s} (reloads checksum_read load_read now l e) stays f = record {
    client = f.client;
    agrees = Agrees-reloads s.server.config_loader l s.watch (ground (arith, stays)) f.agrees;
  }
  Move-Follows conn {s} (looks v idle e) stays f = record {
    client = f.client;
    agrees = looks-Agrees s.server s.watched v e;
  }
  Move-Follows conn {s} (loads v m at e) stays f = record {
    client = f.client;
    agrees = loads-Agrees s.server v m e (subst (Agrees s.server.config_loader) at f.agrees);
  }
  Move-Follows conn {s} (broadcasts v m at) stays f = record { client = f.client; agrees = tt }
  Move-Follows conn {s} (greets other first own fresh e) stays f =
      absurd (ground (arith, fresh, f.client.2))
  Move-Follows conn {s} writes stays f = record {
    client = (f.client.0, f.client.1, f.client.2, refl);
    agrees = f.agrees;
  }
  Move-Follows conn {s} (hears m rest bytes now e r) stays f = record {
    client = (
      handle_message-conn codec s.client bytes now ∙ f.client.0,
      f.client.1,
      f.client.2,
      f.client.3,
    );
    agrees = f.agrees;
  }
  Move-Follows conn {s} (joins other) stays f = record {
    client = (f.client.0, listed-register s.server other conn f.client.1, f.client.2, f.client.3);
    agrees = f.agrees;
  }
  Move-Follows conn {s} (leaves other apart) stays f = record {
    client = (
      f.client.0,
      listed-removed other conn s.server.clients (apart-same_conn s other conn apart f.client.0)
          ∙ f.client.1,
      f.client.2,
      f.client.3,
    );
    agrees = f.agrees;
  }

  hears-IsAhead :
      (s : Fleet) (m : ConfigSnapshotMessage) (rest : List ConfigSnapshotMessage) (bytes : List ℕ)
      (now : ℕ)
      → s.wire ≡ m ∷ rest
      → snapshot_in codec bytes ≡ some m
      → IsAhead s
      → IsAhead (record s { client = (handle_message codec s.client bytes now).0; wire = rest })
  unfolding IsAhead newest
  hears-IsAhead s m rest bytes now e r (cfg, last, version) =
      let active : (handle_message codec s.client bytes now).0.loader.active_config
          ≡ some (config_of m) =
        handle_message-active codec s.client bytes now
        ∙ ap (λ o. elim o [ none ↦ s.client.loader.active_config | some m ↦ some (config_of m) ])
            r in
      (
        cfg,
        ap (λ a. newest a rest) active ∙ ap (newest s.client.loader.active_config) (sym e) ∙ last,
        version,
      )

  broadcasts-IsAhead :
      (conn : ℕ) (s : Fleet) (v : String) (m : ConfigSnapshotMessage)
      → s.watch ≡ sending v m
      → Follows conn s
      → IsAhead (record s {
        watch = waiting;
        watched = v;
        wire = s.wire ++ delivered s.client.conn (broadcast_to s.server m);
      })
  unfolding IsAhead
  broadcasts-IsAhead conn s v m at f = (
    config_of m,
    ap (λ c. newest s.client.loader.active_config (s.wire ++ delivered c (broadcast_to s.server m)))
          f.client.0
        ∙ newest-broadcast conn s.server s.client.loader.active_config s.wire m f.client.1,
    subst (Agrees s.server.config_loader) at f.agrees,
  )

  Move-IsAhead :
      (conn : ℕ) {s t : Fleet} (step : Move lib codec s t)
      → stays_connected step ≡ true
      → Follows conn s
      → IsAhead s
      → IsAhead t
  unfolding IsAhead delivered
  Move-IsAhead conn {s} (connects other) stays f h = cc
  Move-IsAhead conn {s} (loses other own) stays f h = cc
  Move-IsAhead conn {s} (reloads checksum_read load_read now l e) stays f h = h
  Move-IsAhead conn {s} (looks v idle e) stays f h = h
  Move-IsAhead conn {s} (loads v m at e) stays f h = h
  Move-IsAhead conn {s} (broadcasts v m at) stays f h = broadcasts-IsAhead conn s v m at f
  Move-IsAhead conn {s} (greets other first own fresh e) stays f h =
      absurd (ground (arith, fresh, f.client.2))
  Move-IsAhead conn {s} writes stays f h = (
    h.0,
    ap (newest s.client.loader.active_config) (rw (f.client.3, f.client.0) (append-nil s.wire))
        ∙ h.1,
    h.2,
  )
  Move-IsAhead conn {s} (hears m rest bytes now e r) stays f h =
      hears-IsAhead s m rest bytes now e r h
  Move-IsAhead conn {s} (joins other) stays f h = h
  Move-IsAhead conn {s} (leaves other apart) stays f h = h

  Moves-Follows :
      (conn : ℕ) {s t : Fleet} (m : Moves lib codec s t)
      → StayConnected m
      → Follows conn s
      → Follows conn t
  Moves-Follows conn here stays f = f
  Moves-Follows conn (next m step) stays f =
      Move-Follows conn step stays.0 (Moves-Follows conn m stays.1 f)

  Moves-IsAhead :
      (conn : ℕ) {s t : Fleet} (m : Moves lib codec s t)
      → StayConnected m
      → Follows conn s
      → IsAhead s
      → IsAhead t
  Moves-IsAhead conn here stays f h = h
  Moves-IsAhead conn (next m step) stays f h =
      Move-IsAhead conn step stays.0 (Moves-Follows conn m stays.1 f)
        (Moves-IsAhead conn m stays.1 f h)

  -- When the watch of the control plane sees a new version while the data plane is its client and has got
  -- its first snapshot, and then gets to send its broadcast, the data plane has, whatever configuration
  -- it had before, a configuration of the version that is watched whenever it has read all that was
  -- written to it: at any time after that broadcast until it loses its connection, whatever is watched and
  -- read meanwhile, whatever other data planes come and go, and whatever is reloaded, unless a reload comes
  -- between the two loads of a tick, of the version and of the configuration to send.
  pub watch_load-catches_up :
      (s : Fleet) {t u : Fleet} (conn : ℕ) (v w : String) (msg : ConfigSnapshotMessage)
      (before : Moves lib codec (record s { watch = changed v }) t)
      (after : Moves lib codec
        (record t {
          watch = waiting;
          watched = w;
          wire = t.wire ++ delivered t.client.conn (broadcast_to t.server msg);
        })
        u)
      → IsClient conn s
      → watch_load s.watched s.server ≡ some (some v)
      → StayConnected before
      → t.watch ≡ sending w msg
      → StayConnected after
      → u.wire ≡ []
      → (cfg : Config) × (get_config u.client.loader ≡ some cfg) × (cfg.version ≡ u.watched)
  unfolding IsAhead newest get_config
  watch_load-catches_up s {t} {u} conn v w msg before after c e stays at remains all_read =
      let first : Follows conn (record s { watch = changed v }) = record {
        client = c;
        agrees = looks-Agrees s.server s.watched v e;
      } in
      let ready = Moves-Follows conn before stays first in
      let sent = broadcasts-IsAhead conn t w msg at ready in
      let (cfg, last, version) =
        Moves-IsAhead conn after remains (record { client = ready.client; agrees = tt }) sent in
      (cfg, ap (newest u.client.loader.active_config) (sym all_read) ∙ last, version)
