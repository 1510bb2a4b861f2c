-- ===== src/Process/Torn/Tests.antt =====
-- A file of two legacy configurations, of which the later one has a placement less.
use cell_routing_from_scratc.Prelude.{
  ℕ, ◌≡◌, refl, String, Option, none, some, List, [], ◌∷◌, lookup, ok, arith, eq_iff, err,
}
use cell_routing_from_scratc.Prelude.Int.{pos}
use cell_routing_from_scratc.Config.{Config, Library, validate, get_placement_config}
use cell_routing_from_scratc.Config.Samples.{sample_library, legacy_sample}
use cell_routing_from_scratc.Loader.{new_loader, load_initial, try_reload, get_config, provider}
use cell_routing_from_scratc.DataPlane.{Codec}
use cell_routing_from_scratc.Routing.{RoutingDecision, route}
use cell_routing_from_scratc.Proxy.{new_handler}
use cell_routing_from_scratc.Proxy.Exchange.{Request, answered, early}
use cell_routing_from_scratc.Proxy.Serve.{begin}
use cell_routing_from_scratc.Process.{config_path_of, get_env, startup, client_of, here}
use cell_routing_from_scratc.Process.Samples.{loaded, process}
use cell_routing_from_scratc.Process.Torn.{reload-tears}

abbrev fewer : Config
fewer = record legacy_sample {
  version = "1.1.0";
  routing_table = ("visa", "visa") ∷ [];
  cell_endpoints = ("tier3", "http://cell-tier3:9003") ∷ ("visa", "http://cell-visa:9004") ∷ [];
}

abbrev in_file : List ℕ → Option Config
in_file [] = none
in_file (b ∷ []) = some legacy_sample
in_file (b ∷ c ∷ bytes) = some fewer

abbrev library : Library
library = record sample_library { unmarshal_config = in_file }

abbrev codec : Codec
codec = record {
  unmarshal_message = λ bytes. none;
  unmarshal_snapshot = λ bytes. err "syntax error";
}

abbrev no_variables : String → String
no_variables name = ""

starts :
    startup library no_variables (some (1 ∷ [])) (some (1 ∷ [])) 7 ≡ ok (process legacy_sample "1")
unfolding startup load_initial validate lookup new_loader get_config new_handler client_of
    config_path_of get_env get_placement_config
starts = refl

changes :
    try_reload library (loaded legacy_sample "1" 7) (some (1 ∷ 2 ∷ [])) (some (1 ∷ 2 ∷ [])) 12
    ≡ some (loaded fewer "2" 12)
unfolding try_reload validate lookup
changes = refl

acme_placed : lookup "acme" legacy_sample.routing_table ≡ some "tier1"
unfolding lookup
acme_placed = refl

tier1_gone : lookup "tier1" fewer.cell_endpoints ≡ none
unfolding lookup
tier1_gone = refl

abbrev acme_request : Request
acme_request = record { routing_key = "acme"; content_length = pos 0 }

reload-tears_example :
    ((d : RoutingDecision) × (route (provider legacy_sample legacy_sample legacy_sample) "acme"
        ≡ ok d))
    × ((d : RoutingDecision) × (route (provider fewer fewer fewer) "acme" ≡ ok d))
    × ((begin
          (provider legacy_sample fewer fewer)
          (process legacy_sample "1").handler
          acme_request
          12).1
        ≡ answered (early "acme" 500))
unfolding get_config
reload-tears_example =
    reload-tears library codec no_variables (some (1 ∷ [])) (some (1 ∷ [])) (some (1 ∷ 2 ∷ []))
      (some (1 ∷ 2 ∷ [])) 7 12 12 (process legacy_sample "1") (loaded fewer "2" 12) legacy_sample
      fewer acme_request "tier1" refl starts here refl refl changes refl (λ e. cc) (λ e. cc)
      (λ e. ground (arith, eq_iff "acme" "", e)) acme_placed tier1_gone
