-- ===== src/ControlPlane/Endpoints.antt =====
-- cmd/control-plane/main.go: the handlers that main registers on http.DefaultServeMux, and its end. The
-- websocket upgrade enters as its outcome: the new connection, or `none` if it failed.
use cell_routing_from_scratc.Prelude.{
  ◌∙◌, ℕ, ◌≡◌, refl, String, true, Option, none, some, List, [], ◌∷◌, map, GoMap, lookup, ok, arith,
  ap,
}
use cell_routing_from_scratc.Config.{Config, Library}
use cell_routing_from_scratc.Config.Validity.{IsValid}
use cell_routing_from_scratc.Loader
use cell_routing_from_scratc.Loader.{get_config}
use cell_routing_from_scratc.Protocol.{ConfigSnapshotMessage}
use cell_routing_from_scratc.Process.Dispatch.{Mux}
use cell_routing_from_scratc.ControlPlane.{
  Server, snapshot_of, open_connection, register_client, send_config_to_client, Event, history,
}
use cell_routing_from_scratc.ControlPlane.Received.{listed, same_conn_refl}
use cell_routing_from_scratc.ControlPlane.Connections.{history-HasValid}
use cell_routing_from_scratc.ControlPlane.Start.{ControlPlane, start, start-server}

pub data Endpoint : Type 0 where
  connect health : Endpoint

-- The calls of http.HandleFunc.
abbrev pub handlers : GoMap Endpoint
handlers = ("/connect", connect) ∷ ("/health", health) ∷ []

-- `connected` is what HandleConnection has written before its first read.
pub data Answer : Type 0 where
  connected : (conn : ℕ) (sent : List (ℕ × ConfigSnapshotMessage)) → Answer
  not_upgraded : Answer
  status_ok : (body : String) → Answer
  not_found : Answer

connect_to :
    Server → ℕ → Option (Server × List (ℕ × ConfigSnapshotMessage)) → Option (Server × Answer)
connect_to s conn none = none
connect_to s conn (some (s', sent)) = some (s', connected conn sent)

-- `none` is a panic.
handle : Server → (upgrade : Option ℕ) → Option Endpoint → Option (Server × Answer)
unfolding connect_to
handle s upgrade none = some (s, not_found)
handle s upgrade (some health) = some (s, status_ok "{\"status\":\"healthy\"}")
handle s none (some connect) = some (s, not_upgraded)
handle s (some conn) (some connect) = connect_to s conn (open_connection s conn)

found : Option String → Option Endpoint
found none = none
found (some pattern) = lookup pattern handlers

pub endpoint_of : Mux → (path : String) → Option Endpoint
unfolding found
endpoint_of mux path = found (mux.chosen (map (λ e. e.0) handlers) path)

unfoldable pub dispatch :
    Mux → Server → (path : String) → (upgrade : Option ℕ) → Option (Server × Answer)
unfolding handle endpoint_of
dispatch mux s path upgrade = handle s upgrade (endpoint_of mux path)

-- The deferred Stop of the loader.
unfoldable pub shutdown : Server → Option Server
shutdown s = elim (Loader.stop s.config_loader) [
  | none ↦ none
  | some loader ↦ some (record s { config_loader = loader })
]

-- A new connection, with the server before and after it.
pub record Connected (lib : Library) (s s' : Server) (conn : ℕ) (a : Answer) : Type 0 where
  pub cfg : Config
  pub active : get_config s.config_loader ≡ some cfg
  pub valid : IsValid lib cfg
  pub answer : a ≡ connected conn ((conn, snapshot_of cfg) ∷ [])
  pub client : listed conn s'.clients ≡ true
  pub loader : s'.config_loader ≡ s.config_loader

open_connection-eq :
    (s : Server) (conn : ℕ) (cfg : Config)
    → get_config s.config_loader ≡ some cfg
    → open_connection s conn ≡ some (register_client s conn, (conn, snapshot_of cfg) ∷ [])
unfolding open_connection send_config_to_client register_client get_config
open_connection-eq s conn cfg e = ground (arith, e)

-- A control plane that has started and not panicked since, whose mux gives the paths /connect and /health to
-- the handlers that are registered for them, answers requests for both without a panic: at /connect an
-- upgraded request becomes a client and gets the active configuration, which is valid, and one that is not
-- upgraded changes nothing; at /health every request is answered with 200 and {"status":"healthy"}, and
-- changes nothing.
pub dispatch-answers :
    (lib : Library) (getenv : String → String) (load_read checksum_read : Option (List ℕ)) (now : ℕ)
    (p : ControlPlane) (es : List Event) (s : Server) (mux : Mux) (conn : ℕ) (upgrade : Option ℕ)
    → start lib getenv load_read checksum_read now ≡ ok p
    → history lib p.server es ≡ some s
    → mux.chosen ("/connect" ∷ "/health" ∷ []) "/connect" ≡ some "/connect"
    → mux.chosen ("/connect" ∷ "/health" ∷ []) "/health" ≡ some "/health"
    → ((s' : Server) × (a : Answer) × (dispatch mux s "/connect" (some conn) ≡ some (s', a))
        × Connected lib s s' conn a)
      × (dispatch mux s "/connect" none ≡ some (s, not_upgraded))
      × (dispatch mux s "/health" upgrade ≡ some (s, status_ok "{\"status\":\"healthy\"}"))
unfolding dispatch endpoint_of found handle lookup get_config register_client
dispatch-answers lib getenv load_read checksum_read now p es s mux conn upgrade e h at_connect
      at_health =
    let (alone, first) = start-server lib getenv load_read checksum_read now p e in
    let (cfg, active, valid) = history-HasValid lib es p.server s h first in
    (
      (
        register_client s conn,
        connected conn ((conn, snapshot_of cfg) ∷ []),
        ap (λ o. handle s (some conn) (found o)) at_connect
            ∙ ap (connect_to s conn) (open_connection-eq s conn cfg active),
        record {
          cfg = cfg;
          active = active;
          valid = valid;
          answer = refl;
          client = rw (same_conn_refl conn);
          loader = refl;
        },
      ),
      ap (λ o. handle s none (found o)) at_connect,
      ap (λ o. handle s upgrade (found o)) at_health,
    )
