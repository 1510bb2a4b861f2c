-- ===== src/ControlPlane/Start.antt =====
-- cmd/control-plane/main.go: the control plane's process. The websocket upgrade, the listening and the
-- shutdown of the server are left out.
use cell_routing_from_scratc.Prelude.{
  false, ℕ, ◌≡◌, String, Option, some, List, [], Result, ok, ◌>>=◌, deref, arith, subst,
  Result-cases, Option-cases, inl, inr, All,
}
use cell_routing_from_scratc.Config.{Config, Library}
use cell_routing_from_scratc.Config.Validity.{IsValid}
use cell_routing_from_scratc.Loader.{LoadError, new_loader, load_initial, get_config}
use cell_routing_from_scratc.Loader.LastKnownGood.{HasValid, load_initial-HasValid}
use cell_routing_from_scratc.Protocol.{ConfigSnapshotMessage}
use cell_routing_from_scratc.Process.{get_env, poll_interval}
use cell_routing_from_scratc.ControlPlane.{
  Server, new_server, snapshot_of, broadcast_config, Event, history,
}
use cell_routing_from_scratc.ControlPlane.Connections.{written, once, is_open, history-broadcasts}

-- `watched` is the version that WatchConfigChanges starts with.
pub record ControlPlane : Type 0 where
  pub server : Server
  pub watched : String
  pub port : String

unfoldable pub start :
    Library
    → (String → String)
    → (load_read checksum_read : Option (List ℕ)) → ℕ
    → Result LoadError ControlPlane
unfolding new_server
start lib getenv load_read checksum_read now = do
  loader ←
      load_initial lib
        (new_loader (get_env getenv "CONFIG_PATH" "config/routing.json") poll_interval) load_read
        checksum_read now
  cfg ← deref (get_config loader)
  ok (record {
    server = new_server loader;
    watched = cfg.version;
    port = get_env getenv "PORT" "8081";
  })

-- A control plane that has started has no client and a valid configuration.
pub start-server :
    (lib : Library) (getenv : String → String) (load_read checksum_read : Option (List ℕ)) (now : ℕ)
    (p : ControlPlane)
    → start lib getenv load_read checksum_read now ≡ ok p
    → (p.server.clients ≡ []) × HasValid lib p.server.config_loader
unfolding start new_server
start-server lib getenv load_read checksum_read now p e =
    let l = new_loader (get_env getenv "CONFIG_PATH" "config/routing.json") poll_interval in
    elim (Result-cases (load_initial lib l load_read checksum_read now)) [
      | inr (inl (x, bad)) ↦ absurd (ground (arith, bad))
      | inr (inr bad) ↦ absurd (ground (arith, bad))
      | inl (loader, loaded) ↦ elim (Option-cases (get_config loader)) [
        | inl none_yet ↦ absurd (ground (arith, loaded, none_yet))
        | inr (cfg, active) ↦
            let new : loader ≡ p.server.config_loader = ground (arith, loaded, active) in
            (
              ground (arith, loaded, active),
              subst (HasValid lib) new
                  (load_initial-HasValid lib l loader load_read checksum_read now loaded),
            )
      ]
    ]

-- A control plane that has started and not panicked since, whatever connections were opened and closed and
-- whatever its file came to hold, broadcasts its active configuration, which is valid, exactly once to each
-- connection that was opened and not closed since, and to no other one.
pub start-broadcasts :
    (lib : Library) (getenv : String → String) (load_read checksum_read : Option (List ℕ)) (now : ℕ)
    (p : ControlPlane) (es : List Event) (s : Server)
    → start lib getenv load_read checksum_read now ≡ ok p
    → history lib p.server es ≡ some s
    → (cfg : Config) × (sent : List (ℕ × ConfigSnapshotMessage)) × (get_config s.config_loader
        ≡ some cfg)
      × IsValid lib cfg
      × (broadcast_config s ≡ some sent)
      × All (λ e. e.1 ≡ snapshot_of cfg) sent
      × ((conn : ℕ) → written conn sent ≡ once (is_open conn false es))
start-broadcasts lib getenv load_read checksum_read now p es s e h =
    let (alone, valid) = start-server lib getenv load_read checksum_read now p e in
    history-broadcasts lib es p.server s valid alone h
