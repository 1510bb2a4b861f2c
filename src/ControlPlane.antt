-- ===== src/ControlPlane.antt =====
-- internal/controlplane/server.go: the control plane's server. A connection is its number; what is written
-- is a list of pairs of a connection and a message (a failing write is only logged, and json.Marshal does
-- not fail on strings and maps of strings). Log lines are left out.
use cell_routing_from_scratc.Prelude.{
  ℕ, String, Bool, ◌==◌, if◌then◌else◌, Option, none, some, List, [], ◌∷◌, ◌++◌, map, leb, ◌&&◌,
}
use cell_routing_from_scratc.Config.{Config, Library}
use cell_routing_from_scratc.Loader.{Loader, get_config, try_reload}
use cell_routing_from_scratc.Protocol.{
  config_snapshot, ack, nack, Message, ConfigSnapshotMessage, AckMessage, NackMessage,
}
pub mod Received
pub mod Connections
pub mod Start
pub mod Endpoints
pub mod Fleet
mod Tests

-- The keys of the map `clients`, each with the value true.
pub record Server : Type 0 where
  pub clients : List ℕ
  pub config_loader : Loader

unfoldable pub new_server : Loader → Server
new_server config_loader = record { clients = []; config_loader = config_loader }

abbrev pub same_conn : ℕ → ℕ → Bool
same_conn a b = leb a b && leb b a

unfoldable pub removed : ℕ → List ℕ → List ℕ
removed conn [] = []
removed conn (c ∷ cs) = let rest = removed conn cs in if same_conn c conn then rest else c ∷ rest

unfoldable pub register_client : Server → ℕ → Server
unfolding removed
register_client s conn = record s { clients = conn ∷ removed conn s.clients }

unfoldable pub unregister_client : Server → ℕ → Server
unfolding removed
unregister_client s conn = record s { clients = removed conn s.clients }

abbrev pub snapshot_of : Config → ConfigSnapshotMessage
snapshot_of cfg = record {
  message_type = config_snapshot;
  version = cfg.version;
  routing_table = cfg.routing_table;
  cell_endpoints = cfg.cell_endpoints;
  default_placement = cfg.default_placement;
}

-- What BroadcastConfig loads, before it takes the lock. `none` is the panic of GetConfig before the first
-- load.
unfoldable pub broadcast_load : Server → Option ConfigSnapshotMessage
unfolding get_config
broadcast_load s = elim (get_config s.config_loader) [
  | none ↦ none
  | some cfg ↦ some (snapshot_of cfg)
]

-- What it writes under the lock.
unfoldable pub broadcast_to : Server → ConfigSnapshotMessage → List (ℕ × ConfigSnapshotMessage)
broadcast_to s msg = map (λ conn. (conn, msg)) s.clients

unfoldable pub broadcast_config : Server → Option (List (ℕ × ConfigSnapshotMessage))
unfolding broadcast_load broadcast_to
broadcast_config s = elim (broadcast_load s) [ none ↦ none | some msg ↦ some (broadcast_to s msg) ]

unfoldable pub send_config_to_client : Server → ℕ → Option (List (ℕ × ConfigSnapshotMessage))
unfolding get_config
send_config_to_client s conn = elim (get_config s.config_loader) [
  | none ↦ none
  | some cfg ↦ some ((conn, snapshot_of cfg) ∷ [])
]

-- HandleConnection up to the first read.
unfoldable pub open_connection : Server → ℕ → Option (Server × List (ℕ × ConfigSnapshotMessage))
unfolding register_client send_config_to_client
open_connection s conn =
    let s' = register_client s conn in
    elim (send_config_to_client s' conn) [ none ↦ none | some sent ↦ some (s', sent) ]

-- What a tick of WatchConfigChanges finds: the version it has loaded, if that is another one than the last.
unfoldable pub watch_load : String → Server → Option (Option String)
unfolding get_config
watch_load last_version s = elim (get_config s.config_loader) [
  | none ↦ none
  | some cfg ↦ if cfg.version == last_version then some none else some (some cfg.version)
]

-- What the server reads of a data plane's message. It only logs it.
pub record Decoder : Type 0 where
  pub unmarshal_message : List ℕ → Option Message
  pub unmarshal_ack : List ℕ → Option AckMessage
  pub unmarshal_nack : List ℕ → Option NackMessage

pub data Heard : Type 0 where
  acknowledged : (version : String) → Heard
  rejected : (version error : String) → Heard
  ignored : Heard

heard_ack : Option AckMessage → Heard
heard_ack none = ignored
heard_ack (some m) = acknowledged m.version

heard_nack : Option NackMessage → Heard
heard_nack none = ignored
heard_nack (some m) = rejected m.version m.error

unfoldable pub handle_data_plane_message : Decoder → List ℕ → Heard
unfolding heard_ack heard_nack
handle_data_plane_message dec bytes = elim (dec.unmarshal_message bytes) [
  | none ↦ ignored
  | some m ↦
      if m.message_type == ack
      then heard_ack (dec.unmarshal_ack bytes)
      else if m.message_type == nack
      then heard_nack (dec.unmarshal_nack bytes)
      else ignored
]

-- What happens to a server: HandleConnection begins with a new connection, reads a message or fails to read
-- one, and the loader's reload loop ticks.
pub data Event : Type 0 where
  opens : (conn : ℕ) → Event
  hears : (conn : ℕ) (bytes : List ℕ) → Event
  closes : (conn : ℕ) → Event
  ticks : (checksum_read load_read : Option (List ℕ)) (now : ℕ) → Event

opened : Option (Server × List (ℕ × ConfigSnapshotMessage)) → Option Server
opened none = none
opened (some (s, sent)) = some s

ticked : Server → Option Loader → Option Server
ticked s none = none
ticked s (some loader) = some (record s { config_loader = loader })

unfoldable pub happen : Library → Server → Event → Option Server
unfolding opened ticked
happen lib s (opens conn) = opened (open_connection s conn)
happen lib s (hears conn bytes) = some s
happen lib s (closes conn) = some (unregister_client s conn)
happen lib s (ticks checksum_read load_read now) =
    ticked s (try_reload lib s.config_loader checksum_read load_read now)

-- `none` is a panic.
unfoldable pub history : Library → Server → List Event → Option Server
history lib s [] = some s
history lib s (e ∷ es) = elim (happen lib s e) [ none ↦ none | some s' ↦ history lib s' es ]
