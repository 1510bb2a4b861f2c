-- ===== src/ControlPlane/Fleet/Tests.antt =====
-- A control plane with the legacy sample, and a data plane that starts with the sample with placements and
-- hears the control plane's first snapshot.
use cell_routing_from_scratc.Prelude.{
  ◌≡◌, refl, String, ◌==◌, true, false, none, some, [], ◌∷◌, if◌then◌else◌, lookup, ok,
}
use cell_routing_from_scratc.Config.{Config, validate, get_placement_config}
use cell_routing_from_scratc.Config.Samples.{sample_library, legacy_sample, placements_sample}
use cell_routing_from_scratc.Config.Validity.{IsValid}
use cell_routing_from_scratc.Loader.{new_loader, load_initial, get_config, provider}
use cell_routing_from_scratc.Routing.{RoutingDecision, route}
use cell_routing_from_scratc.DataPlane.{
  Codec, Client, new_client, handle_message, handle_config_snapshot,
}
use cell_routing_from_scratc.Proxy.{new_handler}
use cell_routing_from_scratc.Process.{Process, config_path_of, get_env, startup, client_of}
use cell_routing_from_scratc.Process.Samples.{loaded, process}
use cell_routing_from_scratc.ControlPlane.{
  new_server, snapshot_of, register_client, send_config_to_client,
}
use cell_routing_from_scratc.ControlPlane.Start.{ControlPlane, start}
use cell_routing_from_scratc.ControlPlane.Fleet.{
  Fleet, begun, delivered, waiting, changed, sending, loads, connects, greets, writes, hears, Moves,
  here, next,
}
use cell_routing_from_scratc.ControlPlane.{watch_load, broadcast_load, broadcast_to}
use cell_routing_from_scratc.ControlPlane.Fleet.CatchesUp.{StayConnected, watch_load-catches_up}
use cell_routing_from_scratc.Prelude.{leb}
use cell_routing_from_scratc.ControlPlane.Fleet.Serves.{data_plane-routes}

-- The one message that this codec knows.
abbrev codec : Codec
codec = record {
  unmarshal_message = λ bytes. elim bytes [
    | [] ↦ none
    | b ∷ rest ↦ some (record { message_type = "config_snapshot"; version = "1.0.0" })
  ];
  unmarshal_snapshot = λ bytes. ok (snapshot_of legacy_sample);
}

abbrev environment : String → String
environment name = if name == "CONTROL_PLANE_URL" then "ws://control-plane:8081/connect" else ""

abbrev control_plane : ControlPlane
control_plane = record {
  server = record { clients = []; config_loader = loaded legacy_sample "1" 7 };
  watched = "1.0.0";
  port = "8081";
}

control_plane_starts :
    start sample_library (λ name. "") (some (1 ∷ [])) (some (1 ∷ [])) 7 ≡ ok control_plane
unfolding start new_server get_env load_initial validate lookup new_loader get_config
control_plane_starts = refl

abbrev client : Client
client =
    new_client "ws://control-plane:8081/connect"
      (record (loaded placements_sample "2" 8) { config_path = "config/dataplane-initial.json" })

abbrev data_plane : Process
data_plane = record (process placements_sample "2") {
  loader = client.loader;
  client = some client;
  reloads = false;
}

data_plane_starts :
    startup sample_library environment (some (1 ∷ 2 ∷ [])) (some (1 ∷ 2 ∷ [])) 8 ≡ ok data_plane
unfolding startup load_initial validate lookup new_loader get_config new_handler client_of
    config_path_of get_env get_placement_config new_client
data_plane_starts = refl

abbrev greeted : Fleet
greeted = record {
  server = record { clients = 4 ∷ []; config_loader = loaded legacy_sample "1" 7 };
  watched = "1.0.0";
  watch = waiting;
  client = record client { conn = some 4 };
  greeted = true;
  unsent = (4, snapshot_of legacy_sample) ∷ [];
  wire = [];
}

greets_first : Moves sample_library codec (begun control_plane client) greeted
unfolding register_client send_config_to_client get_config
greets_first = next (next here (connects 4)) (greets 4 _ refl refl refl)

abbrev heard : Fleet
heard = record greeted {
  client = (handle_message codec greeted.client (0 ∷ []) 9).0;
  unsent = [];
  wire = [];
}

hears_first : Moves sample_library codec (begun control_plane client) heard
unfolding delivered
hears_first = next (next greets_first writes) (hears _ [] (0 ∷ []) 9 refl refl)

data_plane-routes_example :
    (src : Config) × IsValid sample_library src
    × ((other : String)
        → route (provider legacy_sample legacy_sample legacy_sample) other
          ≡ route (provider src src src) other)
    × (d : RoutingDecision) × (route (provider legacy_sample legacy_sample legacy_sample) "visa"
        ≡ ok d)
unfolding get_config handle_message handle_config_snapshot
data_plane-routes_example =
    data_plane-routes sample_library codec (λ name. "") environment (some (1 ∷ [])) (some (1 ∷ []))
      (some (1 ∷ 2 ∷ [])) (some (1 ∷ 2 ∷ [])) 7 8 control_plane data_plane client legacy_sample
      "visa" control_plane_starts data_plane_starts refl hears_first refl (λ e. cc)

-- The control plane has reloaded since its last broadcast, and the data plane has an older configuration.
abbrev behind : Fleet
behind = record {
  server = record { clients = 4 ∷ []; config_loader = loaded legacy_sample "1" 7 };
  watched = "0.9.0";
  watch = waiting;
  client = record client { conn = some 4 };
  greeted = true;
  unsent = [];
  wire = [];
}

sees_change : watch_load "0.9.0" behind.server ≡ some (some "1.0.0")
unfolding watch_load get_config
sees_change = refl

abbrev loaded_twice : Fleet
loaded_twice = record behind { watch = sending "1.0.0" (snapshot_of legacy_sample) }

loads_again : Moves sample_library codec (record behind { watch = changed "1.0.0" }) loaded_twice
unfolding broadcast_load get_config
loads_again = next here (loads "1.0.0" (snapshot_of legacy_sample) refl refl)

loads_connected : StayConnected sample_library codec loads_again
unfolding loads_again
loads_connected = (refl, tt)

abbrev broadcast : Fleet
broadcast = record behind {
  watched = "1.0.0";
  wire = delivered (some 4) (broadcast_to behind.server (snapshot_of legacy_sample));
}

abbrev caught_up : Fleet
caught_up = record broadcast {
  client = (handle_message codec broadcast.client (0 ∷ []) 9).0;
  wire = [];
}

abbrev reads_it : Moves sample_library codec broadcast caught_up
unfolding delivered broadcast_to
reads_it = next here (hears (snapshot_of legacy_sample) [] (0 ∷ []) 9 refl refl)

watch_load-catches_up_example :
    (cfg : Config) × (get_config caught_up.client.loader ≡ some cfg) × (cfg.version ≡ "1.0.0")
unfolding reads_it
watch_load-catches_up_example =
    watch_load-catches_up sample_library codec behind 4 "1.0.0" "1.0.0" (snapshot_of legacy_sample)
      loads_again reads_it (refl, refl, refl, refl) sees_change loads_connected refl (refl, tt) refl

-- Bytes that do not begin with 0 are the snapshot of the sample with placements.
abbrev two_snapshots : Codec
two_snapshots = record codec {
  unmarshal_snapshot = λ bytes. elim bytes [
    | [] ↦ ok (snapshot_of legacy_sample)
    | b ∷ rest ↦
        if leb b 0 then ok (snapshot_of legacy_sample) else ok (snapshot_of placements_sample)
  ];
}

abbrev before_reload : Fleet
before_reload = record {
  server = record { clients = []; config_loader = loaded placements_sample "2" 7 };
  watched = "2.0.0";
  watch = waiting;
  client = client;
  greeted = true;
  unsent = [];
  wire = [];
}
