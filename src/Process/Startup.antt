-- ===== src/Process/Startup.antt =====
-- A router that takes its configuration from a file, from its start on.
use cell_routing_from_scratc.Prelude.{
  ℕ, ◌≡◌, refl, ◌≢◌, String, ◌==◌, Option, none, some, List, [], ok, arith, ap, ◌∙◌, subst,
  Option-cases, Result-cases, inl, inr,
}
use cell_routing_from_scratc.Config.{Config, Library}
use cell_routing_from_scratc.Config.Validity.{IsValid}
use cell_routing_from_scratc.Loader.{new_loader, load_initial, get_config, provider}
use cell_routing_from_scratc.Loader.LastKnownGood.{
  HasValid, load_initial-HasValid, try_reload-HasValid,
}
use cell_routing_from_scratc.Loader.Unroutable.{legacy_served, placements_unroutable}
use cell_routing_from_scratc.DataPlane.{Codec}
use cell_routing_from_scratc.Routing.{RoutingDecision, route}
use cell_routing_from_scratc.Proxy.{new_handler}
use cell_routing_from_scratc.Proxy.Exchange.{Request, answered, early}
use cell_routing_from_scratc.Proxy.Serve.{begin}
use cell_routing_from_scratc.Proxy.Serve.Refusals.{begin-unroutable}
use cell_routing_from_scratc.Process.{
  Process, config_path_of, poll_interval, get_env, startup, client_of, Step, ticks, connects, hears,
  begins, finishes, checks, Steps, here, next,
}

module _ (lib : Library) (getenv : String → String) where
  -- What a successful start has done.
  pub record Started (load_read checksum_read : Option (List ℕ)) (now : ℕ) (p : Process)
      : Type 0 where
    pub cfg : Config
    pub loaded :
        load_initial lib
          (new_loader (config_path_of getenv) poll_interval)
          load_read
          checksum_read
          now
        ≡ ok p.loader
    pub active : get_config p.loader ≡ some cfg
    pub built : new_handler lib cfg ≡ some p.handler
    pub client : p.client ≡ client_of (getenv "CONTROL_PLANE_URL") p.loader
    pub reloads : p.reloads ≡ (getenv "CONTROL_PLANE_URL" == "")

  pub startup-Started :
      (load_read checksum_read : Option (List ℕ)) (now : ℕ) (p : Process)
      → startup lib getenv load_read checksum_read now ≡ ok p
      → Started load_read checksum_read now p
  unfolding startup
  startup-Started load_read checksum_read now p e =
      let l = new_loader (config_path_of getenv) poll_interval in
      elim (Result-cases (load_initial lib l load_read checksum_read now)) [
        | inr (inl (x, bad)) ↦ absurd (ground (arith, bad))
        | inr (inr bad) ↦ absurd (ground (arith, bad))
        | inl (loader, loaded) ↦ elim (Option-cases (get_config loader)) [
          | inl none_yet ↦ absurd (ground (arith, loaded, none_yet))
          | inr (cfg, active) ↦ elim (Option-cases (new_handler lib cfg)) [
            | inl crashed ↦ absurd (ground (arith, loaded, active, crashed))
            | inr (h, built) ↦
                let new : p ≡ record {
                  loader = loader;
                  client = client_of (getenv "CONTROL_PLANE_URL") loader;
                  reloads = getenv "CONTROL_PLANE_URL" == "";
                  handler = h;
                  port = get_env getenv "PORT" "8080";
                } =
                  ground (arith, loaded, active, built) in
                rw new (record {
                  cfg = cfg;
                  loaded = loaded;
                  active = active;
                  built = built;
                  client = refl;
                  reloads = refl;
                })
          ]
        ]
      ]

  -- A step of a process without a client keeps it so, and keeps the active configuration valid.
  Step-HasValid :
      (codec : Codec) {p q : Process}
      → Step lib codec p q
      → p.client ≡ none
      → HasValid lib p.loader
      → (q.client ≡ none) × HasValid lib q.loader
  Step-HasValid codec {p} (ticks checksum_read load_read now loader on e) alone v =
      (alone, try_reload-HasValid lib p.loader loader checksum_read load_read now e v)
  Step-HasValid codec (connects c conn e) alone v = absurd (ground (arith, alone, e))
  Step-HasValid codec (hears c bytes now e) alone v = absurd (ground (arith, alone, e))
  Step-HasValid codec (begins provider r now) alone v = (alone, v)
  Step-HasValid codec (finishes f u now h served e) alone v = (alone, v)
  Step-HasValid codec (checks address outcome now) alone v = (alone, v)

  Steps-HasValid :
      (codec : Codec) {p q : Process}
      → Steps lib codec p q
      → p.client ≡ none
      → HasValid lib p.loader
      → (q.client ≡ none) × HasValid lib q.loader
  Steps-HasValid codec here alone v = (alone, v)
  Steps-HasValid codec (next r s) alone v =
      let (still, valid) = Steps-HasValid codec r alone v in Step-HasValid codec s still valid

  pub active-IsValid :
      (codec : Codec) (load_read checksum_read : Option (List ℕ)) (now : ℕ) (p : Process)
      {q : Process} (cfg : Config)
      → getenv "CONTROL_PLANE_URL" ≡ ""
      → startup lib getenv load_read checksum_read now ≡ ok p
      → Steps lib codec p q
      → get_config q.loader ≡ some cfg
      → IsValid lib cfg
  unfolding get_config client_of
  active-IsValid codec load_read checksum_read now p {q} cfg alone e steps active =
      let s = startup-Started load_read checksum_read now p e in
      let no_client : p.client ≡ none = s.client ∙ ap (λ url. client_of url p.loader) alone in
      let first = load_initial-HasValid lib _ p.loader load_read checksum_read now s.loaded in
      let (found, is_active, valid) = (Steps-HasValid codec steps no_client first).1 in
      subst (IsValid lib) (ground (arith, active, is_active)) valid

  -- A router that has started without a control plane routes every key at all times, whatever its file
  -- came to hold and whatever requests and health checks came in between, as long as the configuration
  -- that is active then is in the legacy format, that is, has cellEndpoints, and `Route` reads it alone.
  pub startup-serves :
      (codec : Codec) (load_read checksum_read : Option (List ℕ)) (now : ℕ) (p : Process)
      {q : Process} (cfg : Config) (key : String)
      → getenv "CONTROL_PLANE_URL" ≡ ""
      → startup lib getenv load_read checksum_read now ≡ ok p
      → Steps lib codec p q
      → get_config q.loader ≡ some cfg
      → cfg.cell_endpoints ≢ []
      → (d : RoutingDecision) × (route (provider cfg cfg cfg) key ≡ ok d)
  startup-serves codec load_read checksum_read now p cfg key alone e steps active legacy =
      legacy_served lib cfg key
        (active-IsValid codec load_read checksum_read now p cfg alone e steps active) legacy

  -- As long as the active configuration is in the placements format, without cellEndpoints, a router that has
  -- started without a control plane answers every request that has a key with 500 if `Route` reads that
  -- configuration alone, although it is valid.
  pub startup-refuses :
      (codec : Codec) (load_read checksum_read : Option (List ℕ)) (now later : ℕ) (p : Process)
      {q : Process} (cfg : Config) (r : Request)
      → getenv "CONTROL_PLANE_URL" ≡ ""
      → startup lib getenv load_read checksum_read now ≡ ok p
      → Steps lib codec p q
      → get_config q.loader ≡ some cfg
      → cfg.cell_endpoints ≡ []
      → r.routing_key ≢ ""
      → IsValid lib cfg
        × ((begin (provider cfg cfg cfg) q.handler r later).1 ≡ answered (early r.routing_key 500))
  startup-refuses codec load_read checksum_read now later p {q} cfg r alone e steps active new
        keyed =
      (
        active-IsValid codec load_read checksum_read now p cfg alone e steps active,
        begin-unroutable (provider cfg cfg cfg) q.handler r later _ keyed
            (placements_unroutable cfg r.routing_key new),
      )
