-- ===== src/Process/Torn.antt =====
-- A reload of the file between the loads of the configuration that one call of `Route` makes.
use cell_routing_from_scratc.Prelude.{ℕ, ◌≡◌, ◌≢◌, String, Option, none, some, List, ok}
use cell_routing_from_scratc.Config.{Config, Library}
use cell_routing_from_scratc.Loader.{Loader, get_config, provider, try_reload}
use cell_routing_from_scratc.Loader.Unroutable.{legacy_served, torn_route_fails}
use cell_routing_from_scratc.DataPlane.{Codec}
use cell_routing_from_scratc.Prelude.{lookup, true, []}
use cell_routing_from_scratc.Routing.{RoutingDecision, route}
use cell_routing_from_scratc.Proxy.Exchange.{Request, answered, early}
use cell_routing_from_scratc.Proxy.Serve.{begin}
use cell_routing_from_scratc.Proxy.Serve.Refusals.{begin-unroutable}
use cell_routing_from_scratc.Process.{Process, startup, Steps, ticks, next}
use cell_routing_from_scratc.Process.Startup.{active-IsValid}
mod Tests

-- `Route` loads the active configuration anew for the table and for the endpoints. If a router without a control
-- plane reloads its file in between, and the placement of the request's key in the old table has no
-- endpoint in the new configuration, the request is answered with 500, although both configurations, in the
-- legacy format, are valid and route its key.
pub reload-tears :
    (lib : Library) (codec : Codec) (getenv : String → String)
    (load_read checksum_read load_read' checksum_read' : Option (List ℕ)) (started at now : ℕ)
    (p : Process) {q : Process} (loader : Loader) (old new : Config) (r : Request)
    (placement : String)
    → getenv "CONTROL_PLANE_URL" ≡ ""
    → startup lib getenv load_read checksum_read started ≡ ok p
    → Steps lib codec p q
    → q.reloads ≡ true
    → get_config q.loader ≡ some old
    → try_reload lib q.loader checksum_read' load_read' at ≡ some loader
    → get_config loader ≡ some new
    → old.cell_endpoints ≢ []
    → new.cell_endpoints ≢ []
    → r.routing_key ≢ ""
    → lookup r.routing_key old.routing_table ≡ some placement
    → lookup placement new.cell_endpoints ≡ none
    → ((d : RoutingDecision) × (route (provider old old old) r.routing_key ≡ ok d))
      × ((d : RoutingDecision) × (route (provider new new new) r.routing_key ≡ ok d))
      × ((begin (provider old new new) q.handler r now).1 ≡ answered (early r.routing_key 500))
reload-tears lib codec getenv load_read checksum_read load_read' checksum_read' started at now p {q}
      loader old new r placement alone e steps on was reloaded is legacy legacy' keyed there gone =
    let valid =
      active-IsValid lib getenv codec load_read checksum_read started p old alone e steps was in
    let valid' =
      active-IsValid lib getenv codec load_read checksum_read started p new alone e
        (next steps (ticks checksum_read' load_read' at loader on reloaded)) is in
    (
      legacy_served lib old r.routing_key valid legacy,
      legacy_served lib new r.routing_key valid' legacy',
      begin-unroutable (provider old new new) q.handler r now _ keyed
          (torn_route_fails old new r.routing_key placement keyed there gone),
    )
