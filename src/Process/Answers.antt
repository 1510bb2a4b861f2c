-- ===== src/Process/Answers.antt =====
-- What becomes of the requests to a router that has started.
use cell_routing_from_scratc.Prelude.{ℕ, ◌≡◌, ◌⊎◌, String, Option, List, ok, sym, subst, arith}
use cell_routing_from_scratc.Config.{Library}
use cell_routing_from_scratc.Config.Validity.{IsValid}
use cell_routing_from_scratc.Loader.{get_config}
use cell_routing_from_scratc.Loader.LastKnownGood.{load_initial-HasValid}
use cell_routing_from_scratc.Limits.Slots.{Built}
use cell_routing_from_scratc.Routing.{ConfigProvider}
use cell_routing_from_scratc.Proxy.Configured.{new_handler-config}
use cell_routing_from_scratc.Proxy.Startup.{new_handler-Built}
use cell_routing_from_scratc.Proxy.Exchange.{Request, Served, Flight, answered, forwards}
use cell_routing_from_scratc.Proxy.Serve.{begin}
use cell_routing_from_scratc.Proxy.Serve.Traffic.{Traffic, Moves, quiet}
use cell_routing_from_scratc.Proxy.Serve.Guards.{Cleared}
use cell_routing_from_scratc.Proxy.Serve.Refusals.{Refused}
use cell_routing_from_scratc.Proxy.Serve.Answers.{begin_total}
use cell_routing_from_scratc.Process.{Process, startup}
use cell_routing_from_scratc.Process.Startup.{startup-Started}

-- A router that has started, with a control plane or without, answers every request that arrives or forwards
-- it, whatever configuration `Route` reads by then and whatever requests and health checks came before, in
-- any order and with any outcomes: an answer of its own has one of five reasons, a forwarded request has a
-- key that Route decided and a free slot, has no body or one within the placement's limit, and has gone the
-- way that its breaker and the health checks lead, and none makes it panic or blocks.
pub startup-answers :
    (lib : Library) (getenv : String → String) (load_read checksum_read : Option (List ℕ)) (now : ℕ)
    (p : Process) {t : Traffic} (provider : ConfigProvider) (r : Request) (later : ℕ)
    → startup lib getenv load_read checksum_read now ≡ ok p
    → Moves (quiet p.handler) t
    → ((s : Served) × ((begin provider t.handler r later).1 ≡ answered s)
        × Refused provider t.handler r later s)
      ⊎ ((f : Flight) × ((begin provider t.handler r later).1 ≡ forwards f)
          × Cleared provider t.handler r later f)
unfolding get_config
startup-answers lib getenv load_read checksum_read now p provider r later e moves =
    let s = startup-Started lib getenv load_read checksum_read now p e in
    let (found, is_active, valid) =
      load_initial-HasValid lib _ p.loader load_read checksum_read now s.loaded in
    let own : found ≡ s.cfg = ground (arith, is_active, s.active) in
    let v : IsValid lib s.cfg = subst (IsValid lib) own valid in
    let (h, built, slots) = new_handler-Built lib s.cfg v in
    let same : h ≡ p.handler = ground (arith, built, s.built) in
    begin_total lib p.handler provider r later
      (subst (IsValid lib) (sym (new_handler-config lib s.cfg p.handler s.built)) v)
      (subst (λ x. Built x.limits_manager) same slots) moves
