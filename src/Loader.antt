-- ===== src/Loader.antt =====
-- internal/config/loader.go. Each field is an atomic.Value, `none` until its first Store. A read of the
-- file is an argument: its bytes, or `none` if os.ReadFile fails. Where an operation reads the file
-- twice it takes what each read saw.
use cell_routing_from_scratc.Prelude.{
  ◌>>=◌, ◌>>◌, ℕ, String, Bool, true, false, ◌==◌, Option, none, some, List, [], ◌∷◌, if◌then◌else◌,
  Result, ok, err, panic, or_fail,
}
use cell_routing_from_scratc.Config.{Config, ConfigError, Library, validate}
use cell_routing_from_scratc.Routing.{ConfigProvider}
pub mod LastKnownGood
pub mod Races
pub mod Unroutable
mod Tests

pub data ConfigSource : Type 0 where
  file control_plane : ConfigSource

pub record Loader : Type 0 where
  pub config_path : String
  pub active_config : Option Config
  pub config_source : Option ConfigSource
  pub last_checksum : Option String
  pub last_reload : Option ℕ
  pub poll_interval : ℕ
  pub stopped : Bool  -- stopChan is closed

pub data LoadError : Type 0 where
  unreadable unparsable no_checksum : LoadError
  invalid : ConfigError → LoadError

unfoldable pub new_loader : String → ℕ → Loader
new_loader config_path poll_interval = record {
  config_path = config_path;
  active_config = none;
  config_source = none;
  last_checksum = none;
  last_reload = none;
  poll_interval = poll_interval;
  stopped = false;
}

unfoldable pub get_config_source : Loader → ConfigSource
get_config_source l = elim l.config_source [ none ↦ file | some source ↦ source ]

-- The type assertion on a nil value panics, `none`.
unfoldable pub get_config : Loader → Option Config
get_config l = l.active_config

unfoldable pub get_config_version : Loader → Option String
get_config_version l = elim l.active_config [ none ↦ none | some c ↦ some c.version ]

-- The getters that implement routing.ConfigProvider, each of which loads the active configuration:
-- `at_table`, `at_endpoints` and `at_default` are what the three loads of one `Route` find.
unfoldable pub provider : (at_table at_endpoints at_default : Config) → ConfigProvider
provider at_table at_endpoints at_default = record {
  get_routing_table = at_table.routing_table;
  get_cell_endpoints = at_endpoints.cell_endpoints;
  get_default_placement = at_default.default_placement;
}

-- The zero time.Time is 0.
unfoldable pub last_reload_time : Loader → ℕ
last_reload_time l = elim l.last_reload [ none ↦ 0 | some t ↦ t ]

-- The stores of the atomic values. Each can be seen before the next.
abbrev pub store_config : Loader → Config → Loader
store_config l cfg = record l { active_config = some cfg }

abbrev pub store_source : Loader → ConfigSource → Loader
store_source l source = record l { config_source = some source }

abbrev store_checksum : Loader → String → Loader
store_checksum l checksum = record l { last_checksum = some checksum }

abbrev pub store_reload_time : Loader → ℕ → Loader
store_reload_time l now = record l { last_reload = some now }

-- What the three stores leave.
unfoldable pub apply_config : Loader → Config → ℕ → Loader
apply_config l cfg now = store_reload_time (store_source (store_config l cfg) control_plane) now

-- `none` is the panic of a second close of stopChan. Nothing waits for the reload loop to end.
unfoldable pub stop : Loader → Option Loader
stop l = if l.stopped then none else some (record l { stopped = true })

-- What the four stores after a load leave.
store_file : Loader → Config → String → ℕ → Loader
store_file l cfg checksum now =
    store_reload_time (store_checksum (store_source (store_config l cfg) file) checksum) now

module _ (lib : Library) where
  unfoldable pub load_from_file : Option (List ℕ) → Result LoadError Config
  load_from_file read = do
    bytes ← or_fail read unreadable
    or_fail (lib.unmarshal_config bytes) unparsable

  as_load_error : Config → Result ConfigError (Unit {0}) → Result LoadError Config
  as_load_error cfg (ok _) = ok cfg
  as_load_error cfg (err e) = err (invalid e)
  as_load_error cfg panic = panic

  -- A load followed by `Validate`.
  unfoldable pub load_valid : Option (List ℕ) → Result LoadError Config
  unfolding load_from_file as_load_error
  load_valid read = do cfg ← load_from_file read; as_load_error cfg (validate lib cfg)

  unfoldable pub file_checksum : Option (List ℕ) → Option String
  file_checksum none = none
  file_checksum (some bytes) = some (lib.sha256_hex bytes)

  unfoldable pub load_initial :
      Loader → (load_read checksum_read : Option (List ℕ)) → ℕ → Result LoadError Loader
  unfolding load_valid file_checksum store_file
  load_initial l load_read checksum_read now = do
    cfg ← load_valid load_read
    checksum ← or_fail (file_checksum checksum_read) no_checksum
    ok (store_file l cfg checksum now)

  -- The rest of a reload once the file's checksum is known to differ.
  reload_changed : Loader → String → Result LoadError Config → ℕ → Option Loader
  unfolding store_file
  reload_changed l checksum (ok cfg) now = some (store_file l cfg checksum now)
  reload_changed l checksum (err e) now = some l
  reload_changed l checksum panic now = none

  compare_checksums : Loader → String → Option String → Option (List ℕ) → ℕ → Option Loader
  unfolding reload_changed load_valid
  compare_checksums l current none load_read now = none
  compare_checksums l current (some last) load_read now =
      if current == last then some l else reload_changed l current (load_valid load_read) now

  with_checksum : Loader → Option String → Option (List ℕ) → ℕ → Option Loader
  unfolding compare_checksums
  with_checksum l none load_read now = some l
  with_checksum l (some current) load_read now =
      compare_checksums l current l.last_checksum load_read now

  -- `none` is a panic: no checksum was ever stored, or `Validate` meets a nil placement.
  unfoldable pub try_reload :
      Loader → (checksum_read load_read : Option (List ℕ)) → ℕ → Option Loader
  unfolding with_checksum file_checksum
  try_reload l checksum_read load_read now =
      with_checksum l (file_checksum checksum_read) load_read now

  -- The ticks of the reload loop, each with what its two reads see and its time.
  unfoldable pub reload_loop : Loader → List (Option (List ℕ) × Option (List ℕ) × ℕ) → Option Loader
  reload_loop l [] = some l
  reload_loop l ((checksum_read, load_read, now) ∷ ticks) =
      elim (try_reload l checksum_read load_read now) [
        | none ↦ none
        | some l' ↦ reload_loop l' ticks
      ]
