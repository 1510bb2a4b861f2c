-- ===== src/Process/Samples.antt =====
-- Sample processes that have started. Of the sample library a file of one byte holds the legacy sample and
-- one of two bytes the sample with placements.
use cell_routing_from_scratc.Prelude.{false, ℕ, String, true, Option, none, some}
use cell_routing_from_scratc.Config.{Config}
use cell_routing_from_scratc.Config.Samples.{sample_library}
use cell_routing_from_scratc.Loader.{Loader, file}
use cell_routing_from_scratc.Proxy.{Handler, bare_handler, new_handler}
use cell_routing_from_scratc.Process.{Process, poll_interval}

abbrev pub loaded : Config → String → ℕ → Loader
loaded cfg checksum now = record {
  config_path = "config/routing.json";
  active_config = some cfg;
  config_source = some file;
  last_checksum = some checksum;
  last_reload = some now;
  poll_interval = poll_interval;
  stopped = false;
}

abbrev pub of_handler : Config → Option Handler → Handler
of_handler cfg none = bare_handler sample_library cfg
of_handler cfg (some h) = h

abbrev pub process : Config → String → Process
process cfg checksum = record {
  loader = loaded cfg checksum 7;
  client = none;
  reloads = true;
  handler = of_handler cfg (new_handler sample_library cfg);
  port = "8080";
}
