-- ===== src/Process/Tests.antt =====
-- Router processes at concrete inputs. Of the sample library a file of one byte holds the legacy sample and
-- one of two bytes the sample with placements.
use cell_routing_from_scratc.Prelude.{
  ◌≡◌, ◌⊎◌, refl, String, none, some, [], ◌∷◌, lookup, insert, ok, arith, eq_iff, err,
}
use cell_routing_from_scratc.Prelude.Int.{pos}
use cell_routing_from_scratc.Config.{
  parse_health_check, validate, get_cell_endpoints, get_placement_config,
}
use cell_routing_from_scratc.Config.Validity.{IsValid}
use cell_routing_from_scratc.Config.Samples.{sample_library, legacy_sample, placements_sample}
use cell_routing_from_scratc.Loader.{new_loader, load_initial, try_reload, get_config, provider}
use cell_routing_from_scratc.DataPlane.{Codec}
use cell_routing_from_scratc.Routing.{ConfigProvider, RoutingDecision, dedicated, route, is_tier}
use cell_routing_from_scratc.Circuit
use cell_routing_from_scratc.Health
use cell_routing_from_scratc.Limits
use cell_routing_from_scratc.Proxy.{new_handler}
use cell_routing_from_scratc.Proxy.Exchange.{Request, Served, Flight, answered, early, forwards}
use cell_routing_from_scratc.Proxy.Rerouting.{
  go, failover, after_circuit, after_health, fallback_of,
}
use cell_routing_from_scratc.Proxy.Serve.{begin, consult, body_error}
use cell_routing_from_scratc.Proxy.Serve.Outcome.{allows_at}
use cell_routing_from_scratc.Proxy.Serve.Guards.{Cleared}
use cell_routing_from_scratc.Proxy.Serve.Refusals.{Refused}
use cell_routing_from_scratc.Proxy.Serve.Traffic.{
  Traffic, arrive, arrived, quiet, then, here as here_quiet,
}
use cell_routing_from_scratc.Process.Answers.{startup-answers}
use cell_routing_from_scratc.Process.{
  config_path_of, get_env, startup, client_of, ticks, Steps, here, next,
}
use cell_routing_from_scratc.Process.Samples.{loaded, process}
use cell_routing_from_scratc.Process.Startup.{startup-serves, startup-refuses}
use cell_routing_from_scratc.Prelude.{true, false, ◌==◌, if◌then◌else◌}
use cell_routing_from_scratc.Debug.{Info}
use cell_routing_from_scratc.DataPlane.{new_client}
use cell_routing_from_scratc.Process.{Process}
use cell_routing_from_scratc.Process.Shutdown.{Ended, shutdown_total}
use cell_routing_from_scratc.Process.Dispatch.{Mux, told, dispatch, DebugTells, dispatch-DebugTells}
use cell_routing_from_scratc.Process.Stale.{begin_fails_over_by_first}

abbrev codec : Codec
codec = record {
  unmarshal_message = λ bytes. none;
  unmarshal_snapshot = λ bytes. err "syntax error";
}

abbrev no_variables : String → String
no_variables name = ""

starts_legacy :
    startup sample_library no_variables (some (1 ∷ [])) (some (1 ∷ [])) 7
    ≡ ok (process legacy_sample "1")
unfolding startup load_initial validate lookup new_loader get_config new_handler client_of
    config_path_of get_env get_placement_config
starts_legacy = refl

starts_placements :
    startup sample_library no_variables (some (1 ∷ 2 ∷ [])) (some (1 ∷ 2 ∷ [])) 7
    ≡ ok (process placements_sample "2")
unfolding startup load_initial validate lookup new_loader get_config new_handler client_of
    config_path_of get_env get_placement_config
starts_placements = refl

-- At 12 the file holds the other sample.
legacy_later :
    try_reload sample_library (loaded placements_sample "2" 7) (some (1 ∷ [])) (some (1 ∷ [])) 12
    ≡ some (loaded legacy_sample "1" 12)
unfolding try_reload validate lookup
legacy_later = refl

legacy_ticks :
    Steps sample_library codec
      (process placements_sample "2")
      (record (process placements_sample "2") { loader = loaded legacy_sample "1" 12 })
legacy_ticks = next here (ticks (some (1 ∷ [])) (some (1 ∷ [])) 12 _ refl legacy_later)

startup-serves_example :
    (d : RoutingDecision) × (route (provider legacy_sample legacy_sample legacy_sample) "acme"
      ≡ ok d)
unfolding get_config
startup-serves_example =
    startup-serves sample_library no_variables codec (some (1 ∷ [])) (some (1 ∷ [])) 7
      (process legacy_sample "1") legacy_sample "acme" refl starts_legacy here refl (λ e. cc)

abbrev visa_request : Request
visa_request = record { routing_key = "visa"; content_length = pos 0 }

abbrev visa_decision : RoutingDecision
visa_decision = record {
  placement_key = "visa";
  reason = dedicated;
  endpoint_url = "http://cell-visa:9004";
}

abbrev visa_flight : Flight
visa_flight = record {
  routing_key = "visa";
  acquired = "visa";
  decision = visa_decision;
  failover_reason = "";
}

abbrev legacy_provider : ConfigProvider
legacy_provider = provider legacy_sample legacy_sample legacy_sample

visa_forwarded :
    (begin legacy_provider (process placements_sample "2").handler visa_request 13).1
    ≡ forwards visa_flight
unfolding begin consult body_error failover after_circuit after_health fallback_of
    get_placement_config get_cell_endpoints route is_tier lookup insert Limits.try_acquire
    Limits.set_config Limits.new_manager Circuit.get_breaker Circuit.allow Circuit.put_breaker
    Health.is_healthy Health.new_checker provider new_handler parse_health_check Circuit.new_manager
    Health.register_endpoint
visa_forwarded = refl

begin_fails_over_by_first_example :
    (d : RoutingDecision) × (route legacy_provider "visa" ≡ ok d)
    × (failover placements_sample
          (Health.is_healthy (process placements_sample "2").handler.health_checker)
          (allows_at (process placements_sample "2").handler d.placement_key 13)
          d
        ≡ go (record { decision = visa_decision; failover_reason = "" }))
unfolding get_config
begin_fails_over_by_first_example =
    begin_fails_over_by_first sample_library codec no_variables (some (1 ∷ 2 ∷ []))
      (some (1 ∷ 2 ∷ [])) 7 (process placements_sample "2") placements_sample legacy_provider
      visa_request 13 visa_flight starts_placements refl legacy_ticks visa_forwarded

startup-refuses_example :
    IsValid sample_library placements_sample
    × ((begin
          (provider placements_sample placements_sample placements_sample)
          (process placements_sample "2").handler
          visa_request
          13).1
        ≡ answered (early "visa" 500))
unfolding get_config
startup-refuses_example =
    startup-refuses sample_library no_variables codec (some (1 ∷ 2 ∷ [])) (some (1 ∷ 2 ∷ [])) 7 13
      (process placements_sample "2") placements_sample visa_request refl starts_placements here
      refl refl (λ e. ground (arith, eq_iff "visa" "", e))

abbrev waiting : Traffic
waiting =
    arrived (quiet (process placements_sample "2").handler)
      (begin legacy_provider (process placements_sample "2").handler visa_request 13)

-- The second request, while the first one waits for its upstream.
startup-answers_example :
    ((s : Served) × ((begin legacy_provider waiting.handler visa_request 14).1 ≡ answered s)
      × Refused legacy_provider waiting.handler visa_request 14 s)
    ⊎ ((f : Flight) × ((begin legacy_provider waiting.handler visa_request 14).1 ≡ forwards f)
        × Cleared legacy_provider waiting.handler visa_request 14 f)
startup-answers_example =
    startup-answers sample_library no_variables (some (1 ∷ 2 ∷ [])) (some (1 ∷ 2 ∷ [])) 7
      (process placements_sample "2") legacy_provider visa_request 14 starts_placements
      ((then) here_quiet (arrive legacy_provider visa_request 13))

-- The file has changed since the start.
shutdown_total_example :
    (mid : Process) × (s : Process) × Ended true
      (record (process placements_sample "2") { loader = loaded legacy_sample "1" 12 })
      mid
      s
shutdown_total_example =
    shutdown_total sample_library codec no_variables (some (1 ∷ 2 ∷ [])) (some (1 ∷ 2 ∷ [])) 7
      (process placements_sample "2") starts_placements legacy_ticks

abbrev follows : String → String
follows name = if name == "CONTROL_PLANE_URL" then "ws://cp:8081/connect" else ""

abbrev data_plane : Process
data_plane = record (process legacy_sample "1") {
  loader = record (loaded legacy_sample "1" 7) { config_path = "config/dataplane-initial.json" };
  client = some (
      new_client "ws://cp:8081/connect"
        (record (loaded legacy_sample "1" 7) { config_path = "config/dataplane-initial.json" }));
  reloads = false;
}

starts_data_plane : startup sample_library follows (some (1 ∷ [])) (some (1 ∷ [])) 7 ≡ ok data_plane
unfolding startup load_initial validate lookup new_loader get_config new_handler client_of
    config_path_of get_env get_placement_config
starts_data_plane = refl

abbrev mux : Mux
mux = record {
  chosen = λ patterns path. some (if path == "/debug/config" then "/debug/config" else "/");
}

dispatch-DebugTells_example :
    (i : Info) × (dispatch mux
        (λ time. "1970-01-01T00:00:00Z")
        legacy_provider
        data_plane.loader
        data_plane.loader
        data_plane.loader
        data_plane
        "/debug/config"
        visa_request
        20
      ≡ (data_plane, told (some i)))
    × DebugTells sample_library false data_plane.loader data_plane.loader data_plane.loader i
dispatch-DebugTells_example =
    dispatch-DebugTells sample_library codec (λ time. "1970-01-01T00:00:00Z") follows
      (some (1 ∷ [])) (some (1 ∷ [])) 7 data_plane mux legacy_provider visa_request 20 refl
      starts_data_plane here here here
