-- ===== src/ControlPlane/Fleet/Serves.antt =====
-- What a data plane of a control plane routes by.
use cell_routing_from_scratc.Prelude.{
  ℕ, ◌≡◌, refl, ◌≢◌, String, ◌==◌, Option, none, some, List, [], ◌∷◌, map, All, All-append, ok,
  arith, ap, sym, subst, ◌∙◌, Bool-cases, inl, inr,
}
use cell_routing_from_scratc.Config.{Config, Library}
use cell_routing_from_scratc.Config.Validity.{IsValid}
use cell_routing_from_scratc.Loader.{Loader, get_config, provider}
use cell_routing_from_scratc.Loader.LastKnownGood.{
  HasValid, load_initial-HasValid, try_reload-HasValid,
}
use cell_routing_from_scratc.Loader.Unroutable.{legacy_served}
use cell_routing_from_scratc.Routing.{RoutingDecision, route}
use cell_routing_from_scratc.Protocol.{ConfigSnapshotMessage}
use cell_routing_from_scratc.DataPlane.{Codec, Client, config_of, new_client, handle_message}
use cell_routing_from_scratc.DataPlane.Snapshots.{snapshot_in, handle_message-active}
use cell_routing_from_scratc.Process.{Process, startup, client_of}
use cell_routing_from_scratc.Process.Startup.{startup-Started}
use cell_routing_from_scratc.ControlPlane.{
  Server, same_conn, snapshot_of, register_client, unregister_client, broadcast_load, broadcast_to,
  send_config_to_client,
}
use cell_routing_from_scratc.ControlPlane.Start.{ControlPlane, start, start-server}
use cell_routing_from_scratc.ControlPlane.Fleet.{
  Fleet, begun, delivered, Watch, waiting, changed, sending, Move, reloads, looks, loads,
  broadcasts, connects, greets, writes, hears, loses, joins, leaves, Moves, here, next,
}

module _ (lib : Library) where
  -- A message that a valid configuration gave.
  abbrev IsFaithful : ConfigSnapshotMessage → Type 0
  IsFaithful m = (src : Config) × IsValid lib src × (m ≡ snapshot_of src)

  -- A configuration that routes as a valid one.
  abbrev Routes : Config → Type 0
  Routes cfg =
      (src : Config) × IsValid lib src
      × (cfg.cell_endpoints ≡ src.cell_endpoints)
      × ((key : String) → route (provider cfg cfg cfg) key ≡ route (provider src src src) key)

  IsFaithful-Routes : (m : ConfigSnapshotMessage) → IsFaithful m → Routes (config_of m)
  unfolding provider
  IsFaithful-Routes m (src, valid, e) =
      subst (λ x. Routes (config_of x)) (sym e) (src, valid, refl, λ key. refl)

  delivered-IsFaithful :
      (conn : Option ℕ) (sent : List (ℕ × ConfigSnapshotMessage))
      → All (λ e. IsFaithful e.1) sent
      → All IsFaithful (delivered conn sent)
  unfolding delivered
  delivered-IsFaithful none sent h = tt
  delivered-IsFaithful (some conn) [] h = tt
  delivered-IsFaithful (some conn) ((k, m) ∷ sent) h = elim (Bool-cases (same_conn k conn)) [
    | inl own ↦ rw own (h.0, delivered-IsFaithful (some conn) sent h.1)
    | inr other ↦ rw other (delivered-IsFaithful (some conn) sent h.1)
  ]

  map-IsFaithful :
      (m : ConfigSnapshotMessage) (cs : List ℕ)
      → IsFaithful m
      → All (λ (e : ℕ × ConfigSnapshotMessage). IsFaithful e.1) (map (λ c. (c, m)) cs)
  map-IsFaithful m [] h = tt
  map-IsFaithful m (c ∷ cs) h = (h, map-IsFaithful m cs h)

  broadcast_load-IsFaithful :
      (s : Server) (m : ConfigSnapshotMessage)
      → HasValid lib s.config_loader
      → broadcast_load s ≡ some m
      → IsFaithful m
  unfolding broadcast_load get_config
  broadcast_load-IsFaithful s m (cfg, active, valid) e =
      let new : snapshot_of cfg ≡ m = ground (arith, active) in (cfg, valid, sym new)

  -- What the watch is about to send comes from a valid configuration.
  abbrev SendsFaithful : Watch → Type 0
  SendsFaithful waiting = Unit
  SendsFaithful (changed v) = Unit
  SendsFaithful (sending v m) = IsFaithful m

  send-IsFaithful :
      (s : Server) (conn : ℕ) (first : List (ℕ × ConfigSnapshotMessage))
      → HasValid lib s.config_loader
      → send_config_to_client s conn ≡ some first
      → All (λ e. IsFaithful e.1) first
  unfolding send_config_to_client get_config
  send-IsFaithful s conn first (cfg, active, valid) e =
      let new : (conn, snapshot_of cfg) ∷ [] ≡ first = ground (arith, active) in
      subst (All (λ x. IsFaithful x.1)) new ((cfg, valid, refl), tt)

  -- Everything on its way to the data plane, and what it has, comes from valid configurations.
  record IsSound (s : Fleet) : Type 0 where
    served : HasValid lib s.server.config_loader
    watch : SendsFaithful s.watch
    unsent : All (λ e. IsFaithful e.1) s.unsent
    wire : All IsFaithful s.wire
    active : (cfg : Config) × (s.client.loader.active_config ≡ some cfg) × Routes cfg

  module _ (codec : Codec) where
    hears-Routes :
        (c : Client) (m : ConfigSnapshotMessage) (bytes : List ℕ) (now : ℕ)
        → snapshot_in codec bytes ≡ some m
        → (handle_message codec c bytes now).0.loader.active_config ≡ some (config_of m)
    hears-Routes c m bytes now e =
        handle_message-active codec c bytes now
        ∙ ap (λ o. elim o [ none ↦ c.loader.active_config | some m ↦ some (config_of m) ]) e

    Move-IsSound : {s t : Fleet} → Move lib codec s t → IsSound s → IsSound t
    unfolding register_client unregister_client broadcast_to
    Move-IsSound {s} (reloads checksum_read load_read now l e) h = record {
      served =
          try_reload-HasValid lib s.server.config_loader l checksum_read load_read now e h.served;
      watch = h.watch;
      unsent = h.unsent;
      wire = h.wire;
      active = h.active;
    }
    Move-IsSound {s} (looks v idle e) h = record {
      served = h.served;
      watch = tt;
      unsent = h.unsent;
      wire = h.wire;
      active = h.active;
    }
    Move-IsSound {s} (loads v m at e) h = record {
      served = h.served;
      watch = broadcast_load-IsFaithful s.server m h.served e;
      unsent = h.unsent;
      wire = h.wire;
      active = h.active;
    }
    Move-IsSound {s} (broadcasts v m at) h = record {
      served = h.served;
      watch = tt;
      unsent = h.unsent;
      wire =
          All-append IsFaithful s.wire (delivered s.client.conn (broadcast_to s.server m)) h.wire (
            delivered-IsFaithful s.client.conn (broadcast_to s.server m)
              (map-IsFaithful m s.server.clients (subst SendsFaithful at h.watch)));
      active = h.active;
    }
    Move-IsSound (connects conn) h = record {
      served = h.served;
      watch = h.watch;
      unsent = tt;
      wire = tt;
      active = h.active;
    }
    Move-IsSound {s} (greets conn first own fresh e) h = record {
      served = h.served;
      watch = h.watch;
      unsent = send-IsFaithful s.server conn first h.served e;
      wire = h.wire;
      active = h.active;
    }
    Move-IsSound {s} writes h = record {
      served = h.served;
      watch = h.watch;
      unsent = tt;
      wire =
          All-append IsFaithful s.wire (delivered s.client.conn s.unsent) h.wire
            (delivered-IsFaithful s.client.conn s.unsent h.unsent);
      active = h.active;
    }
    Move-IsSound {s} (hears m rest bytes now e r) h =
        let (first, others) = subst (All IsFaithful) e h.wire in
        record {
          served = h.served;
          watch = h.watch;
          unsent = h.unsent;
          wire = others;
          active = (config_of m, hears-Routes s.client m bytes now r, IsFaithful-Routes m first);
        }
    Move-IsSound (loses conn own) h = record {
      served = h.served;
      watch = h.watch;
      unsent = tt;
      wire = tt;
      active = h.active;
    }
    Move-IsSound (joins conn) h = record {
      served = h.served;
      watch = h.watch;
      unsent = h.unsent;
      wire = h.wire;
      active = h.active;
    }
    Move-IsSound (leaves conn other) h = record {
      served = h.served;
      watch = h.watch;
      unsent = h.unsent;
      wire = h.wire;
      active = h.active;
    }

    Moves-IsSound : {s t : Fleet} → Moves lib codec s t → IsSound s → IsSound t
    Moves-IsSound here h = h
    Moves-IsSound (next r m) h = Move-IsSound m (Moves-IsSound r h)

    client-loader :
        (url : String) (loader : Loader) (c : Client)
        → client_of url loader ≡ some c
        → c.loader ≡ loader
    unfolding client_of new_client
    client-loader url loader c e = elim (Bool-cases (url == "")) [
      | inl unset ↦ absurd (ground (arith, unset))
      | inr given ↦ ground (arith, given)
    ]

    started-IsSound :
        (cp_env dp_env : String → String)
        (cp_load cp_checksum dp_load dp_checksum : Option (List ℕ)) (now later : ℕ)
        (cp : ControlPlane) (p : Process) (c : Client)
        → start lib cp_env cp_load cp_checksum now ≡ ok cp
        → startup lib dp_env dp_load dp_checksum later ≡ ok p
        → p.client ≡ some c
        → IsSound (begun cp c)
    started-IsSound cp_env dp_env cp_load cp_checksum dp_load dp_checksum now later cp p c e f
          there =
        let s = startup-Started lib dp_env dp_load dp_checksum later p f in
        let (cfg, active, valid) =
          load_initial-HasValid lib _ p.loader dp_load dp_checksum later s.loaded in
        let own : c.loader ≡ p.loader =
          client-loader (dp_env "CONTROL_PLANE_URL") p.loader c (sym s.client ∙ there) in
        record {
          served = (start-server lib cp_env cp_load cp_checksum now cp e).1;
          watch = tt;
          unsent = tt;
          wire = tt;
          active = (cfg, ap (λ l. l.active_config) own ∙ active, (cfg, valid, refl, λ key. refl));
        }

    -- After a control plane and a data plane that follows it have started, in any course of reloads,
    -- broadcasts, connections, first snapshots and lost connections: if the configuration that the data plane
    -- has then is in the legacy format, that is, has cellEndpoints, it routes every key, and does so as some
    -- valid configuration, although the data plane validates nothing that it hears.
    pub data_plane-routes :
        (cp_env dp_env : String → String)
        (cp_load cp_checksum dp_load dp_checksum : Option (List ℕ)) (now later : ℕ)
        (cp : ControlPlane) (p : Process) (c : Client) {s : Fleet} (cfg : Config) (key : String)
        → start lib cp_env cp_load cp_checksum now ≡ ok cp
        → startup lib dp_env dp_load dp_checksum later ≡ ok p
        → p.client ≡ some c
        → Moves lib codec (begun cp c) s
        → get_config s.client.loader ≡ some cfg
        → cfg.cell_endpoints ≢ []
        → (src : Config) × IsValid lib src
          × ((other : String)
              → route (provider cfg cfg cfg) other ≡ route (provider src src src) other)
          × (d : RoutingDecision) × (route (provider cfg cfg cfg) key ≡ ok d)
    unfolding get_config
    data_plane-routes cp_env dp_env cp_load cp_checksum dp_load dp_checksum now later cp p c {s} cfg
          key e f there moves active legacy =
        let sound = Moves-IsSound moves (
          started-IsSound cp_env dp_env cp_load cp_checksum dp_load dp_checksum now later cp p c e f
            there) in
        let (found, is_active, routes) = sound.active in
        let same : found ≡ cfg = ground (arith, active, is_active) in
        let (src, valid, endpoints, alike) = subst Routes same routes in
        let (d, served) =
          legacy_served lib src key valid (λ none_there. legacy (endpoints ∙ none_there)) in
        (src, valid, alike, d, alike key ∙ served)
