-- ===== src/Loader/Tests.antt =====
-- The loader on sample files, and the theorems at concrete inputs. A file of one byte holds the legacy
-- sample, one of two bytes the sample with placements, and a longer one a nil placement.
use cell_routing_from_scratc.Prelude.{
  false, ℕ, ◌≡◌, refl, ◌⊎◌, none, some, List, Option, [], ◌∷◌, lookup, ok, err, arith, eq_iff,
}
use cell_routing_from_scratc.Config.{validate}
use cell_routing_from_scratc.Config.Samples.{sample_library, legacy_sample, placements_sample}
use cell_routing_from_scratc.Config.Validity.{IsValid, validate-IsValid_iff}
use cell_routing_from_scratc.Loader.{
  Loader, new_loader, load_initial, try_reload, reload_loop, get_config, get_config_version,
  last_reload_time, unparsable, unreadable, file,
}
use cell_routing_from_scratc.Loader.LastKnownGood.{
  Holds, HasValid, Reloaded, try_reload-Reloaded, load-reload-HasValid,
}
use cell_routing_from_scratc.Loader.Races.{try_reload_uptake}

abbrev empty_loader : Loader
empty_loader = new_loader "config/routing.json" 5000000000

abbrev loaded : Loader
loaded = record {
  config_path = "config/routing.json";
  active_config = some legacy_sample;
  config_source = some file;
  last_checksum = some "1";
  last_reload = some 7;
  poll_interval = 5000000000;
  stopped = false;
}

loads :
    (load_initial sample_library empty_loader (some (1 ∷ [])) (some (1 ∷ [])) 7 ≡ ok loaded)
    × (load_initial sample_library empty_loader (some []) (some []) 7 ≡ err unparsable)
    × (load_initial sample_library empty_loader none none 7 ≡ err unreadable)
    × (get_config empty_loader ≡ none)
    × (get_config_version loaded ≡ some "1.0.0")
    × (last_reload_time loaded ≡ 7)
unfolding load_initial validate lookup new_loader get_config get_config_version last_reload_time
loads = (refl, refl, refl, refl, refl, refl)

-- A file with a nil placement crashes the reload loop.
reload_panics :
    try_reload sample_library loaded (some (1 ∷ 2 ∷ 3 ∷ [])) (some (1 ∷ 2 ∷ 3 ∷ [])) 9 ≡ none
unfolding try_reload validate lookup
reload_panics = refl

legacy_valid : IsValid sample_library legacy_sample
unfolding validate lookup
legacy_valid = (validate-IsValid_iff sample_library legacy_sample).0 refl

placements_valid : IsValid sample_library placements_sample
unfolding validate lookup
placements_valid = (validate-IsValid_iff sample_library placements_sample).0 refl

legacy_held : Holds sample_library (some (1 ∷ [])) legacy_sample
legacy_held = record { bytes = 1 ∷ []; seen = refl; parsed = refl; valid = legacy_valid }

placements_held : Holds sample_library (some (1 ∷ 2 ∷ [])) placements_sample
placements_held = record {
  bytes = 1 ∷ 2 ∷ [];
  seen = refl;
  parsed = refl;
  valid = placements_valid;
}

abbrev reloaded : Loader
reloaded = record loaded {
  active_config = some placements_sample;
  last_checksum = some "2";
  last_reload = some 9;
}

reloads : try_reload sample_library loaded (some (1 ∷ 2 ∷ [])) (some (1 ∷ 2 ∷ [])) 9 ≡ some reloaded
unfolding try_reload validate lookup
reloads = refl

abbrev garbled_tick : List (Option (List ℕ) × Option (List ℕ) × ℕ)
garbled_tick = (some (1 ∷ 2 ∷ []), some [], 9) ∷ []

keeps_last_known_good : reload_loop sample_library loaded garbled_tick ≡ some loaded
unfolding reload_loop try_reload validate lookup
keeps_last_known_good = refl

try_reload-Reloaded_example :
    (reloaded ≡ loaded)
    ⊎ Reloaded sample_library loaded reloaded (some (1 ∷ 2 ∷ [])) (some (1 ∷ 2 ∷ [])) 9
try_reload-Reloaded_example =
    try_reload-Reloaded sample_library loaded reloaded (some (1 ∷ 2 ∷ [])) (some (1 ∷ 2 ∷ [])) 9
      reloads

load-reload-HasValid_example : HasValid sample_library loaded
load-reload-HasValid_example =
    load-reload-HasValid sample_library empty_loader loaded loaded (some (1 ∷ [])) (some (1 ∷ [])) 7
      garbled_tick loads.0 keeps_last_known_good

try_reload_uptake_example :
    (l' : Loader) × (try_reload sample_library loaded (some (1 ∷ 2 ∷ [])) (some (1 ∷ 2 ∷ [])) 9
      ≡ some l')
    × (l'.active_config ≡ some placements_sample)
    × (try_reload sample_library l' (some (1 ∷ 2 ∷ [])) (some (1 ∷ 2 ∷ [])) 10 ≡ some l')
try_reload_uptake_example =
    try_reload_uptake sample_library loaded (1 ∷ 2 ∷ []) placements_sample "1" 9 10 refl
      (λ e. ground (arith, eq_iff "2" "1", e)) placements_held
