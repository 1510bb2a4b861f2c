-- ===== src/ControlPlane/Fleet/Stale.antt =====
-- A first snapshot that is overtaken by a broadcast: SendConfigToClient and BroadcastConfig of
-- internal/controlplane/server.go load the configuration under no lock.
use cell_routing_from_scratc.Prelude.{ℕ, ◌≡◌, refl, true, some, List, [], ◌∷◌, ◌++◌, map, arith}
use cell_routing_from_scratc.Config.{Config, Library}
use cell_routing_from_scratc.Loader.{Loader}
use cell_routing_from_scratc.Protocol.{ConfigSnapshotMessage}
use cell_routing_from_scratc.DataPlane.{Codec, Client, handle_message}
use cell_routing_from_scratc.ControlPlane.{
  Server, removed, snapshot_of, register_client, broadcast_to,
}
use cell_routing_from_scratc.ControlPlane.Received.{same_conn_refl}
use cell_routing_from_scratc.ControlPlane.Fleet.{Fleet, delivered, waiting}

-- Nothing is written to a connection by a broadcast to the others.
delivered-removed :
    (conn : ℕ) (m : ConfigSnapshotMessage) (cs : List ℕ)
    → delivered (some conn) (map (λ k. (k, m)) (removed conn cs)) ≡ []
unfolding delivered removed
delivered-removed conn m [] = refl
delivered-removed conn m (c ∷ cs) = ground (arith, delivered-removed conn m cs)

-- A broadcast to a connection that has just been registered.
delivered-registered :
    (s : Server) (conn : ℕ) (m : ConfigSnapshotMessage)
    → delivered (some conn) (broadcast_to (register_client s conn) m) ≡ m ∷ []
unfolding delivered broadcast_to register_client
delivered-registered s conn m = rw (same_conn_refl conn, delivered-removed conn m s.clients) refl

module _ (lib : Library) (codec : Codec) where
  -- The data plane's connection is registered, its first snapshot is loaded, and the file is reloaded.
  abbrev registered : Fleet → ℕ → ConfigSnapshotMessage → Loader → Fleet
  registered s conn first l = record s {
    server = record (register_client s.server conn) { config_loader = l };
    client = record s.client { conn = some conn };
    greeted = true;
    unsent = (conn, first) ∷ [];
    wire = [];
  }

  -- A tick of the watch broadcasts what was loaded, and only then is the first snapshot written.
  abbrev overtaken : Fleet → ℕ → ConfigSnapshotMessage → Loader → Config → Fleet
  overtaken s conn first l new = record (registered s conn first l) {
    watch = waiting;
    watched = new.version;
    unsent = [];
    wire =
        ([]
          ++ delivered (some conn)
              (broadcast_to (registered s conn first l).server (snapshot_of new)))
        ++ delivered (some conn) ((conn, first) ∷ []);
  }

  abbrev last_client : Client → List ℕ → List ℕ → ℕ → Client
  last_client c new_bytes old_bytes now =
      (handle_message codec (handle_message codec c new_bytes now).0 old_bytes now).0

  abbrev stale : Fleet → ℕ → Config → Loader → Config → List ℕ → List ℕ → ℕ → Fleet
  stale s conn old l new new_bytes old_bytes now =
      record (overtaken s conn (snapshot_of old) l new) {
        client = last_client (record s.client { conn = some conn }) new_bytes old_bytes now;
        wire = [];
      }
