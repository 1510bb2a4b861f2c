-- ===== src/Debug.antt =====
-- internal/debug/handler.go. `format` is time.Time.Format(time.RFC3339).
use cell_routing_from_scratc.Prelude.{ℕ, String, Option, none, some}
use cell_routing_from_scratc.Loader.{
  ConfigSource, file, control_plane, Loader, get_config_version, get_config_source,
  last_reload_time,
}

pub record Info : Type 0 where
  pub version : String
  pub source : String
  pub last_reload_at : String

-- The constants of ConfigSource, which json.Marshal writes as they are.
abbrev pub source_text : ConfigSource → String
source_text file = "file"
source_text control_plane = "control_plane"

-- `at_version`, `at_source` and `at_time` are the loader as its three loads find it: a store may come
-- between them. `none` is the panic of GetConfigVersion before the first load.
unfoldable pub serve_config : (ℕ → String) → (at_version at_source at_time : Loader) → Option Info
unfolding get_config_version get_config_source last_reload_time
serve_config format at_version at_source at_time = elim (get_config_version at_version) [
  | none ↦ none
  | some version ↦ some (record {
    version = version;
    source = source_text (get_config_source at_source);
    last_reload_at = format (last_reload_time at_time);
  })
]
