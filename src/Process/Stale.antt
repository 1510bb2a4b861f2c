-- ===== src/Process/Stale.antt =====
-- The configuration by which the handler fails over, in the course of a process.
use cell_routing_from_scratc.Prelude.{ℕ, ◌≡◌, refl, String, Option, some, List, ok, ◌∙◌, sym, subst}
use cell_routing_from_scratc.Config.{Config, Library}
use cell_routing_from_scratc.Loader.{get_config}
use cell_routing_from_scratc.DataPlane.{Codec}
use cell_routing_from_scratc.Routing.{ConfigProvider, RoutingDecision, route}
use cell_routing_from_scratc.Health
use cell_routing_from_scratc.Proxy.Configured.{new_handler-config}
use cell_routing_from_scratc.Proxy.Exchange.{Request, Flight, forwards}
use cell_routing_from_scratc.Proxy.Rerouting.{failover, go}
use cell_routing_from_scratc.Proxy.Serve.{begin}
use cell_routing_from_scratc.Proxy.Serve.Frozen.{begin-config, finish-config}
use cell_routing_from_scratc.Proxy.Serve.Outcome.{allows_at, begin-Passed}
use cell_routing_from_scratc.Process.{
  Process, startup, Step, ticks, connects, hears, begins, finishes, checks, Steps, here, next,
}
use cell_routing_from_scratc.Process.Startup.{startup-Started}

module _ (lib : Library) (codec : Codec) where
  Step-config : {p q : Process} → Step lib codec p q → q.handler.config ≡ p.handler.config
  Step-config (ticks checksum_read load_read now loader on e) = refl
  Step-config (connects c conn e) = refl
  Step-config (hears c bytes now e) = refl
  Step-config {p} (begins provider r now) = begin-config provider p.handler r now
  Step-config {p} (finishes f u now h served e) = finish-config p.handler h f u now served e
  Step-config (checks address outcome now) = refl

  Steps-config : {p q : Process} → Steps lib codec p q → q.handler.config ≡ p.handler.config
  Steps-config here = refl
  Steps-config (next r s) = Step-config s ∙ Steps-config r

  -- At any time after a router has started, whatever configuration has become active meanwhile, a forwarded
  -- request was routed by the configuration that its router read, but failed over by the one that was active
  -- at the start.
  pub begin_fails_over_by_first :
      (getenv : String → String) (load_read checksum_read : Option (List ℕ)) (then_at : ℕ)
      (p : Process) {q : Process} (first : Config) (provider : ConfigProvider) (r : Request)
      (now : ℕ) (f : Flight)
      → startup lib getenv load_read checksum_read then_at ≡ ok p
      → get_config p.loader ≡ some first
      → Steps lib codec p q
      → (begin provider q.handler r now).1 ≡ forwards f
      → (d : RoutingDecision) × (route provider r.routing_key ≡ ok d)
        × (failover first
              (Health.is_healthy q.handler.health_checker)
              (allows_at q.handler d.placement_key now)
              d
            ≡ go (record { decision = f.decision; failover_reason = f.failover_reason }))
  begin_fails_over_by_first getenv load_read checksum_read then_at p {q} first provider r now f e a
        steps sent =
      let s = startup-Started lib getenv load_read checksum_read then_at p e in
      let same : first ≡ s.cfg = cc (a, s.active) in
      let frozen : q.handler.config ≡ first =
        Steps-config steps ∙ new_handler-config lib s.cfg p.handler s.built ∙ sym same in
      let passed = begin-Passed provider q.handler r now f sent in
      (
        passed.d,
        passed.routed,
        subst
            (λ c.
              failover c (Health.is_healthy q.handler.health_checker)
                (allows_at q.handler passed.d.placement_key now) passed.d
              ≡ go (record { decision = f.decision; failover_reason = f.failover_reason }))
            frozen passed.failed_over,
      )
