-- ===== src/Process/Dispatch.antt =====
-- cmd/router/main.go: the handlers that main registers, and which of them gets a request. http.ServeMux
-- enters as its choice among the registered patterns.
use cell_routing_from_scratc.Prelude.{
  ℕ, ◌≡◌, refl, ◌⊎◌, inl, inr, String, Bool, true, false, Option, none, some, List, [], ◌∷◌, map,
  ok, arith, ap, ◌∙◌, ◌==◌, lookup, GoMap,
}
use cell_routing_from_scratc.Config.{Config, Library}
use cell_routing_from_scratc.Config.Validity.{IsValid}
use cell_routing_from_scratc.Loader.{
  Loader, get_config, file, control_plane, ConfigSource, get_config_version, get_config_source,
  last_reload_time,
}
use cell_routing_from_scratc.Loader.LastKnownGood.{HasValid, load_initial-HasValid}
use cell_routing_from_scratc.Debug.{Info, source_text, serve_config}
use cell_routing_from_scratc.Protocol.{ConfigSnapshotMessage}
use cell_routing_from_scratc.DataPlane.{Codec, config_of}
use cell_routing_from_scratc.Routing.{ConfigProvider}
use cell_routing_from_scratc.Proxy.Exchange.{Request, Begun}
use cell_routing_from_scratc.Proxy.Serve.{begin}
use cell_routing_from_scratc.Process.{Process, startup, Steps}
use cell_routing_from_scratc.Process.Source.{
  Origin, Steps-Sourced, startup-Sourced, load_initial-source,
}
use cell_routing_from_scratc.Process.Startup.{startup-Started}

pub data Target : Type 0 where
  debug_config proxied : Target

-- The calls of mux.Handle.
abbrev pub handlers : GoMap Target
handlers = ("/debug/config", debug_config) ∷ ("/", proxied) ∷ []

-- `chosen` is the pattern whose handler gets a request with this path, `none` where the mux answers itself.
pub record Mux : Type 0 where
  pub chosen : (patterns : List String) (path : String) → Option String

pub data Answer : Type 0 where
  told : Option Info → Answer
  begun : Begun → Answer
  by_mux : Answer

to_target :
    (ℕ → String)
    → ConfigProvider
    → (at_version at_source at_time : Loader) → Process
    → Request
    → ℕ
    → Option Target
    → Process × Answer
to_target format provider at_version at_source at_time p r now none = (p, by_mux)
to_target format provider at_version at_source at_time p r now (some debug_config) =
    (p, told (serve_config format at_version at_source at_time))
to_target format provider at_version at_source at_time p r now (some proxied) =
    let (h, outcome) = begin provider p.handler r now in (record p { handler = h }, begun outcome)

-- A request up to its upstream, if it is one for the proxy. The three loaders are what the loads of the
-- debug handler find.
unfoldable pub dispatch :
    Mux
    → (ℕ → String)
    → ConfigProvider
    → (at_version at_source at_time : Loader) → Process
    → (path : String) → Request
    → ℕ
    → Process × Answer
unfolding to_target
dispatch mux format provider at_version at_source at_time p path r now =
    elim (mux.chosen (map (λ e. e.0) handlers) path) [
      | none ↦ (p, by_mux)
      | some pattern ↦
          to_target format provider at_version at_source at_time p r now (lookup pattern handlers)
    ]

-- What is told where the load of the version finds the loader `l` and the load of the source `l'`, by a router
-- that started with `first`.
pub DebugTells : Library → (alone : Bool) → (first l l' : Loader) → Info → Type 0
DebugTells lib true first l l' i =
    (cfg : Config) × (get_config l ≡ some cfg)
    × IsValid lib cfg
    × (i.version ≡ cfg.version)
    × (i.source ≡ "file")
DebugTells lib false first l l' i =
    ((cfg : Config) × (get_config l ≡ some cfg) × (i.version ≡ cfg.version))
    × ((l ≡ first) ⊎ ((m : ConfigSnapshotMessage) × (get_config l ≡ some (config_of m))))
    × (((l' ≡ first) × (i.source ≡ "file"))
        ⊎ ((m : ConfigSnapshotMessage) × (get_config l' ≡ some (config_of m))
            × (i.source ≡ "control_plane")))

-- What the handler answers.
abbrev info : (ℕ → String) → Config → ConfigSource → Loader → Info
info format cfg source at_time = record {
  version = cfg.version;
  source = source_text source;
  last_reload_at = format (last_reload_time at_time);
}

serve_config-info :
    (format : ℕ → String) (l l' at_time : Loader) (cfg : Config) (source : ConfigSource)
    → l.active_config ≡ some cfg
    → l'.config_source ≡ some source
    → serve_config format l l' at_time ≡ some (info format cfg source at_time)
unfolding serve_config get_config_version get_config_source
serve_config-info format l l' at_time cfg source active from = ground (arith, active, from)

module _ (lib : Library) (codec : Codec) (format : ℕ → String) where
  -- The configuration and the source of a data plane's loader.
  Sources : (first l : Loader) → Type 0
  Sources first l =
      ((cfg : Config) × (l.active_config ≡ some cfg) × (l ≡ first) × (l.config_source ≡ some file))
      ⊎ ((m : ConfigSnapshotMessage) × (l.active_config ≡ some (config_of m))
          × (l.config_source ≡ some control_plane))

  Origin-Sources :
      (first l : Loader)
      → HasValid lib first
      → first.config_source ≡ some file
      → Origin lib codec first false l
      → Sources first l
  unfolding Origin Sources
  Origin-Sources first l (cfg, active, valid) from (inl same) =
      inl
        (cfg, ap (λ x. x.active_config) same ∙ active, same, ap (λ x. x.config_source) same ∙ from)
  Origin-Sources first l started from (inr snapshot) = inr snapshot

  Sources-DebugTells :
      (first l l' at_time : Loader)
      → Sources first l
      → Sources first l'
      → (i : Info) × (serve_config format l l' at_time ≡ some i) × DebugTells lib false first l l' i
  unfolding DebugTells Sources get_config
  Sources-DebugTells first l l' at_time (inl (cfg, active, same, from))
        (inl (cfg', active', same', from')) =
      (
        info format cfg file at_time,
        serve_config-info format l l' at_time cfg file active from',
        ((cfg, active, refl), inl same, inl (same', refl)),
      )
  Sources-DebugTells first l l' at_time (inl (cfg, active, same, from)) (inr (m', active', from')) =
      (
        info format cfg control_plane at_time,
        serve_config-info format l l' at_time cfg control_plane active from',
        ((cfg, active, refl), inl same, inr (m', active', refl)),
      )
  Sources-DebugTells first l l' at_time (inr (m, active, from))
        (inl (cfg', active', same', from')) =
      (
        info format (config_of m) file at_time,
        serve_config-info format l l' at_time (config_of m) file active from',
        ((config_of m, active, refl), inr (m, active), inl (same', refl)),
      )
  Sources-DebugTells first l l' at_time (inr (m, active, from)) (inr (m', active', from')) = (
    info format (config_of m) control_plane at_time,
    serve_config-info format l l' at_time (config_of m) control_plane active from',
    ((config_of m, active, refl), inr (m, active), inr (m', active', refl)),
  )

  Origin-DebugTells :
      (alone : Bool) (first l l' at_time : Loader)
      → HasValid lib first
      → first.config_source ≡ some file
      → Origin lib codec first alone l
      → Origin lib codec first alone l'
      → (i : Info) × (serve_config format l l' at_time ≡ some i) × DebugTells lib alone first l l' i
  unfolding Origin DebugTells get_config
  Origin-DebugTells true first l l' at_time started from (cfg, active, valid, own)
        (cfg', active', valid', own') =
      (
        info format cfg file at_time,
        serve_config-info format l l' at_time cfg file active own',
        (cfg, active, valid, refl, refl),
      )
  Origin-DebugTells false first l l' at_time started from o o' =
      Sources-DebugTells first l l' at_time (Origin-Sources first l started from o)
        (Origin-Sources first l' started from o')

  -- After any steps from its start a router whose mux gives the path /debug/config to the handler that is
  -- registered for it answers it without a panic and without a change, whatever steps come between the
  -- handler's three loads. The version that it names is that of the configuration active at the first load,
  -- and the source is that of the second: without a control plane the source is "file", and the configuration
  -- is valid; with one, the configuration is that of the start or of a snapshot, and the source is "file"
  -- if the loader is at the second load still as it was at the start, and "control_plane" if a snapshot is
  -- active then. No load comes between two stores of one step.
  pub dispatch-DebugTells :
      (getenv : String → String) (load_read checksum_read : Option (List ℕ)) (now : ℕ) (p : Process)
      {q q' q'' : Process} (mux : Mux) (provider : ConfigProvider) (r : Request) (later : ℕ)
      → mux.chosen ("/debug/config" ∷ "/" ∷ []) "/debug/config" ≡ some "/debug/config"
      → startup lib getenv load_read checksum_read now ≡ ok p
      → Steps lib codec p q
      → Steps lib codec q q'
      → Steps lib codec q' q''
      → (i : Info) × (dispatch mux format provider q.loader q'.loader q''.loader q'' "/debug/config"
            r later
          ≡ (q'', told (some i)))
        × DebugTells lib (getenv "CONTROL_PLANE_URL" == "") p.loader q.loader q'.loader i
  unfolding dispatch to_target lookup
  dispatch-DebugTells getenv load_read checksum_read now p {q} {q'} {q''} mux provider r later exact
        e steps between last =
      let alone = getenv "CONTROL_PLANE_URL" == "" in
      let s = startup-Started lib getenv load_read checksum_read now p e in
      let sourced =
        Steps-Sourced lib codec p.loader alone steps
          (startup-Sourced lib codec getenv load_read checksum_read now p e) in
      let sourced' = Steps-Sourced lib codec p.loader alone between sourced in
      let (i, served, tells) =
        Origin-DebugTells alone p.loader q.loader q'.loader q''.loader
          (load_initial-HasValid lib _ p.loader load_read checksum_read now s.loaded)
          (load_initial-source lib _ p.loader load_read checksum_read now s.loaded) sourced.2
          sourced'.2 in
      (i, ground (arith, exact, served), tells)
