-- ===== src/Config/Samples.antt =====
-- Sample configurations, after config/routing.json and config/routing-m4.json, and a sample of the
-- standard library's functions that knows a few texts, for tests and witnesses.
use cell_routing_from_scratc.Prelude.{
  ℕ, String, ◌==◌, Option, none, some, List, [], ◌∷◌, if◌then◌else◌,
}
use cell_routing_from_scratc.Prelude.Int.{ℤ, pos}
use cell_routing_from_scratc.Config.{Config, PlacementConfig, Url, Library}

abbrev pub legacy_sample : Config
legacy_sample = record {
  version = "1.0.0";
  routing_table = ("acme", "tier1") ∷ ("visa", "visa") ∷ [];
  cell_endpoints =
      ("tier1", "http://cell-tier1:9001")
      ∷ ("tier3", "http://cell-tier3:9003")
      ∷ ("visa", "http://cell-visa:9004")
      ∷ [];
  placements = [];
  default_placement = "tier3";
}

abbrev pub tier3_placement : PlacementConfig
tier3_placement = record {
  url = "http://cell-tier3:9003";
  fallback = "";
  health_check = some (record { path = "/health"; interval = "10s"; timeout = "2s" });
  circuit_breaker = some (record { failure_threshold = pos 5; timeout = "30s" });
  concurrency_limit = pos 200;
  max_request_body_bytes = pos 10485760;
}

abbrev pub visa_placement : PlacementConfig
visa_placement = record {
  url = "http://cell-visa:9004";
  fallback = "tier3";
  health_check = some (record { path = "/health"; interval = "5s"; timeout = "2s" });
  circuit_breaker = some (record { failure_threshold = pos 3; timeout = "30s" });
  concurrency_limit = pos 50;
  max_request_body_bytes = pos 5242880;
}

abbrev pub placements_sample : Config
placements_sample = record {
  version = "2.0.0";
  routing_table = ("visa", "visa") ∷ [];
  cell_endpoints = [];
  placements = ("tier3", some tier3_placement) ∷ ("visa", some visa_placement) ∷ [];
  default_placement = "tier3";
}

-- `"placements": {"tier3": null}`
abbrev pub nil_sample : Config
nil_sample = record placements_sample { placements = ("tier3", none) ∷ [] }

abbrev sample_duration : String → Option ℤ
sample_duration s =
    if s == "2s"
    then some (pos 2000000000)
    else if s == "5s"
    then some (pos 5000000000)
    else if s == "10s"
    then some (pos 10000000000)
    else if s == "30s"
    then some (pos 30000000000)
    else none

abbrev sample_url : String → Option Url
sample_url s = if s == ":" then none else some (record { scheme = "http"; host = s })

abbrev sample_unmarshal : List ℕ → Option Config
sample_unmarshal [] = none
sample_unmarshal (b ∷ []) = some legacy_sample
sample_unmarshal (b ∷ c ∷ []) = some placements_sample
sample_unmarshal (b ∷ c ∷ d ∷ bytes) = some nil_sample

abbrev sample_sha256 : List ℕ → String
sample_sha256 [] = "0"
sample_sha256 (b ∷ []) = "1"
sample_sha256 (b ∷ c ∷ bytes) = "2"

abbrev pub sample_library : Library
sample_library = record {
  parse_duration = sample_duration;
  parse_url = sample_url;
  unmarshal_config = sample_unmarshal;
  sha256_hex = sample_sha256;
}
