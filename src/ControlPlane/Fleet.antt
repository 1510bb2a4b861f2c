-- ===== src/ControlPlane/Fleet.antt =====
-- A control plane and one of its data planes, as they run side by side: cmd/control-plane/main.go with
-- internal/controlplane/server.go on the one side, internal/dataplane/client.go on the other, and between
-- them what was written to their connection and not read. The other data planes come and go.
use cell_routing_from_scratc.Prelude.{
  ℕ, ◌≡◌, ◌≢◌, String, Bool, true, false, Option, none, some, List, [], ◌∷◌, ◌++◌, if◌then◌else◌,
}
use cell_routing_from_scratc.Config.{Library}
use cell_routing_from_scratc.Loader.{Loader, try_reload}
use cell_routing_from_scratc.Protocol.{ConfigSnapshotMessage}
use cell_routing_from_scratc.DataPlane.{Codec, Client, handle_message}
use cell_routing_from_scratc.DataPlane.Snapshots.{snapshot_in}
use cell_routing_from_scratc.ControlPlane.{
  Server, same_conn, register_client, unregister_client, send_config_to_client, watch_load,
  broadcast_load, broadcast_to,
}
use cell_routing_from_scratc.ControlPlane.Start.{ControlPlane}
pub mod Serves
pub mod Newest
pub mod CatchesUp
pub mod Stale
mod Tests

-- Where a tick of WatchConfigChanges is: before it finds a change, with the version that it found, and, in
-- BroadcastConfig, with the message that it made of what it loaded there.
pub data Watch : Type 0 where
  waiting : Watch
  changed : (version : String) → Watch
  sending : (version : String) (message : ConfigSnapshotMessage) → Watch

-- `watched` is lastVersion of WatchConfigChanges. `greeted` says whether HandleConnection has read the
-- configuration for its first snapshot, and `unsent` is that snapshot until it is written.
pub record Fleet : Type 0 where
  pub server : Server
  pub watched : String
  pub watch : Watch
  pub client : Client
  pub greeted : Bool
  pub unsent : List (ℕ × ConfigSnapshotMessage)
  pub wire : List ConfigSnapshotMessage

abbrev pub begun : ControlPlane → Client → Fleet
begun cp client = record {
  server = cp.server;
  watched = cp.watched;
  watch = waiting;
  client = client;
  greeted = true;
  unsent = [];
  wire = [];
}

-- What is written to the data plane's own connection.
unfoldable pub delivered : Option ℕ → List (ℕ × ConfigSnapshotMessage) → List ConfigSnapshotMessage
delivered none sent = []
delivered (some conn) [] = []
delivered (some conn) ((k, m) ∷ sent) =
    let others = delivered (some conn) sent in if same_conn k conn then m ∷ others else others

module _ (lib : Library) (codec : Codec) where
  -- A step of either side, between two loads of the configuration, two operations under a mutex or on the
  -- network. What arrives are bytes
  -- that the client reads as the message that was written.
  pub data Move (s : Fleet) : Fleet → Type 0 where
    reloads :
        (checksum_read load_read : Option (List ℕ)) (now : ℕ) (l : Loader)
        → try_reload lib s.server.config_loader checksum_read load_read now ≡ some l
        → Move s (record s { server = record s.server { config_loader = l } })
    looks :
        (v : String)
        → s.watch ≡ waiting
        → watch_load s.watched s.server ≡ some (some v)
        → Move s (record s { watch = changed v })
    loads :
        (v : String) (m : ConfigSnapshotMessage)
        → s.watch ≡ changed v
        → broadcast_load s.server ≡ some m
        → Move s (record s { watch = sending v m })
    broadcasts :
        (v : String) (m : ConfigSnapshotMessage)
        → s.watch ≡ sending v m
        → Move s (record s {
          watch = waiting;
          watched = v;
          wire = s.wire ++ delivered s.client.conn (broadcast_to s.server m);
        })
    connects :
        (conn : ℕ)
        → Move s (record s {
          server = register_client s.server conn;
          client = record s.client { conn = some conn };
          greeted = false;
          unsent = [];
          wire = [];
        })
    greets :
        (conn : ℕ) (first : List (ℕ × ConfigSnapshotMessage))
        → s.client.conn ≡ some conn
        → s.greeted ≡ false
        → send_config_to_client s.server conn ≡ some first
        → Move s (record s { greeted = true; unsent = first })
    writes : Move s (record s { unsent = []; wire = s.wire ++ delivered s.client.conn s.unsent })
    hears :
        (m : ConfigSnapshotMessage) (rest : List ConfigSnapshotMessage) (bytes : List ℕ) (now : ℕ)
        → s.wire ≡ m ∷ rest
        → snapshot_in codec bytes ≡ some m
        → Move s (record s { client = (handle_message codec s.client bytes now).0; wire = rest })
    loses :
        (conn : ℕ)
        → s.client.conn ≡ some conn
        → Move s (record s {
          server = unregister_client s.server conn;
          greeted = true;
          unsent = [];
          wire = [];
        })
    joins : (conn : ℕ) → Move s (record s { server = register_client s.server conn })
    leaves :
        (conn : ℕ)
        → s.client.conn ≢ some conn
        → Move s (record s { server = unregister_client s.server conn })

  pub data Moves (s : Fleet) : Fleet → Type 0 where
    here : Moves s s
    next : {t u : Fleet} → Moves s t → Move t u → Moves s u
