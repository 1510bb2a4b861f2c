-- ===== src/ControlPlane/Tests.antt =====
-- A control plane with one data plane, and the theorems at concrete inputs.
use cell_routing_from_scratc.Prelude.{
  ℕ, zero, suc, ◌*◌, ◌≡◌, refl, true, false, ◌==◌, Option, none, some, List, [], ◌∷◌, ok, err, All,
  if◌then◌else◌, lookup,
}
use cell_routing_from_scratc.Config.{Config}
use cell_routing_from_scratc.Loader.{
  file, new_loader, load_initial, try_reload, get_config, get_config_version, provider,
}
use cell_routing_from_scratc.Protocol.{ConfigSnapshotMessage}
use cell_routing_from_scratc.DataPlane.{Codec, Client, Turn, second, connection_loop}
use cell_routing_from_scratc.DataPlane.Backoff.{waits, connection_loop-waits}
use cell_routing_from_scratc.Config.{validate}
use cell_routing_from_scratc.Config.Samples.{sample_library, legacy_sample, placements_sample}
use cell_routing_from_scratc.Config.Validity.{IsValid}
use cell_routing_from_scratc.Process.{get_env, poll_interval}
use cell_routing_from_scratc.ControlPlane.{
  new_server, unregister_client, Event, opens, hears, closes, ticks, happen, history,
}
use cell_routing_from_scratc.ControlPlane.Connections.{written, once, is_open}
use cell_routing_from_scratc.ControlPlane.Start.{ControlPlane, start, start-broadcasts}
use cell_routing_from_scratc.ControlPlane.{Server, snapshot_of, broadcast_config, open_connection}
use cell_routing_from_scratc.Prelude.{◌==◌, if◌then◌else◌, true}
use cell_routing_from_scratc.Loader
use cell_routing_from_scratc.Process.Dispatch.{Mux}
use cell_routing_from_scratc.ControlPlane.Endpoints.{
  Answer, Connected, not_upgraded, status_ok, dispatch, shutdown, dispatch-answers,
}

abbrev first_config : Config
first_config = record {
  version = "1";
  routing_table = ("visa", "tier1") ∷ [];
  cell_endpoints = ("tier1", "http://cell-tier1:9001") ∷ [];
  placements = [];
  default_placement = "tier1";
}

abbrev second_config : Config
second_config = record first_config { version = "2"; routing_table = [] }

-- A codec for the snapshots of these two configurations; any other message is not valid JSON.
abbrev snapshots : List ℕ → Option ConfigSnapshotMessage
snapshots (zero ∷ []) = some (snapshot_of first_config)
snapshots (suc zero ∷ []) = some (snapshot_of second_config)
snapshots _ = none

abbrev codec : Codec
codec = record {
  unmarshal_message = λ bytes. elim (snapshots bytes) [
    | none ↦ none
    | some m ↦ some (record { message_type = m.message_type; version = m.version })
  ];
  unmarshal_snapshot =
      λ bytes. elim (snapshots bytes) [ none ↦ err "syntax error" | some m ↦ ok m ];
}

abbrev client : Client
client = record {
  cp_url = "ws://control-plane:8081/ws";
  loader = record {
    config_path = "/config/routing.json";
    active_config = some first_config;
    config_source = none;
    last_checksum = none;
    last_reload = none;
    poll_interval = 5;
    stopped = false;
  };
  conn = some 7;
  stopped = false;
  reconnect = true;
}

abbrev turns : List Turn
turns =
    record { stopping = false; reconnecting = true; dialled = none }
    ∷ record { stopping = false; reconnecting = true; dialled = none }
    ∷ record { stopping = false; reconnecting = true; dialled = some (7, (0 ∷ [], 3) ∷ []) }
    ∷ record { stopping = false; reconnecting = true; dialled = none }
    ∷ record { stopping = true; reconnecting = true; dialled = none }
    ∷ []

waits-turns : waits 0 turns ≡ second ∷ 2 * second ∷ second ∷ []
unfolding waits
waits-turns = refl

connection_loop-waits_example : (connection_loop codec client second turns).1 ≡ waits 0 turns
connection_loop-waits_example = connection_loop-waits codec client turns

abbrev control_plane : ControlPlane
control_plane = record {
  server = record {
    clients = [];
    config_loader = record client.loader {
      config_path = "config/routing.json";
      active_config = some legacy_sample;
      config_source = some file;
      last_checksum = some "1";
      last_reload = some 7;
      poll_interval = poll_interval;
      stopped = false;
    };
  };
  watched = "1.0.0";
  port = "8081";
}

starts : start sample_library (λ name. "") (some (1 ∷ [])) (some (1 ∷ [])) 7 ≡ ok control_plane
unfolding start new_server get_env load_initial validate lookup new_loader get_config
starts = refl

-- Two data planes connect, one acknowledges, the file changes, and one of them goes.
abbrev events : List Event
events =
    opens 4
    ∷ opens 7
    ∷ hears 7 (2 ∷ [])
    ∷ ticks (some (1 ∷ 2 ∷ [])) (some (1 ∷ 2 ∷ [])) 12
    ∷ closes 4
    ∷ []

abbrev after_events : Server
after_events = record {
  clients = 7 ∷ [];
  config_loader = record control_plane.server.config_loader {
    active_config = some placements_sample;
    last_checksum = some "2";
    last_reload = some 12;
  };
}

events_happen : history sample_library control_plane.server events ≡ some after_events
unfolding history happen try_reload open_connection unregister_client validate lookup get_config
events_happen = refl

start-broadcasts_example :
    (cfg : Config) × (sent : List (ℕ × ConfigSnapshotMessage)) × (get_config
        after_events.config_loader
      ≡ some cfg)
    × IsValid sample_library cfg
    × (broadcast_config after_events ≡ some sent)
    × All (λ e. e.1 ≡ snapshot_of cfg) sent
    × ((conn : ℕ) → written conn sent ≡ once (is_open conn false events))
start-broadcasts_example =
    start-broadcasts sample_library (λ name. "") (some (1 ∷ [])) (some (1 ∷ [])) 7 control_plane
      events after_events starts events_happen

abbrev mux : Mux
mux = record {
  chosen = λ patterns path.
      if path == "/connect" then some path else if path == "/health" then some path else none;
}

dispatch-answers_example :
    ((s' : Server) × (a : Answer) × (dispatch mux after_events "/connect" (some 9) ≡ some (s', a))
      × Connected sample_library after_events s' 9 a)
    × (dispatch mux after_events "/connect" none ≡ some (after_events, not_upgraded))
    × (dispatch mux after_events "/health" none
        ≡ some (after_events, status_ok "{\"status\":\"healthy\"}"))
dispatch-answers_example =
    dispatch-answers sample_library (λ name. "") (some (1 ∷ [])) (some (1 ∷ [])) 7 control_plane
      events after_events mux 9 none starts events_happen refl refl

-- A second shutdown panics.
shuts_down_once :
    (shutdown (record after_events {
      config_loader = record after_events.config_loader { stopped = true };
    })
      ≡ none)
unfolding shutdown Loader.stop
shuts_down_once = refl
