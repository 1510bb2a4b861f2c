-- ===== src/Process.antt =====
-- cmd/router/main.go: the router's process, from its start to the first signal. The environment is a
-- function, "" where a variable is not set. The listening and the shutdown of the server are left out.
use cell_routing_from_scratc.Prelude.{
  ◌>>=◌, ◌>>◌, ℕ, ◌≡◌, String, Bool, true, ◌==◌, Option, none, some, List, if◌then◌else◌, Result,
  ok, deref,
}
use cell_routing_from_scratc.Config.{Library}
use cell_routing_from_scratc.Loader.{
  Loader, LoadError, new_loader, load_initial, try_reload, get_config,
}
use cell_routing_from_scratc.DataPlane.{Codec, Client, new_client, handle_message}
use cell_routing_from_scratc.Routing.{ConfigProvider}
use cell_routing_from_scratc.Health
use cell_routing_from_scratc.Proxy.{Handler, new_handler}
use cell_routing_from_scratc.Proxy.Exchange.{Request, Served, Flight}
use cell_routing_from_scratc.Proxy.Serve.{begin, Upstream, finish}
pub mod Startup
pub mod Stale
pub mod Answers
pub mod Shutdown
pub mod Torn
pub mod Source
pub mod Dispatch
pub mod Samples
mod Tests

unfoldable pub get_env : (String → String) → (key fallback : String) → String
get_env getenv key fallback = let value = getenv key in if value == "" then fallback else value

unfoldable pub config_path_of : (String → String) → String
unfolding get_env
config_path_of getenv =
    if getenv "CONTROL_PLANE_URL" == ""
    then get_env getenv "CONFIG_PATH" "config/routing.json"
    else get_env getenv "CONFIG_PATH" "config/dataplane-initial.json"

-- The loader is shared by the client, the router and the handler of /debug/config.
pub record Process : Type 0 where
  pub loader : Loader
  pub client : Option Client
  pub reloads : Bool  -- the reload loop runs
  pub handler : Handler
  pub port : String

unfoldable pub client_of : (cp_url : String) → Loader → Option Client
client_of cp_url loader = if cp_url == "" then none else some (new_client cp_url loader)

-- Five seconds.
abbrev pub poll_interval : ℕ
poll_interval = 5000000000

-- An error is log.Fatalf; a panic ends the process too.
unfoldable pub startup :
    Library
    → (String → String)
    → (load_read checksum_read : Option (List ℕ)) → ℕ
    → Result LoadError Process
unfolding client_of
startup lib getenv load_read checksum_read now = do
  loader ←
      load_initial lib (new_loader (config_path_of getenv) poll_interval) load_read checksum_read
        now
  cfg ← deref (get_config loader)
  handler ← deref (new_handler lib cfg)
  ok (record {
    loader = loader;
    client = client_of (getenv "CONTROL_PLANE_URL") loader;
    reloads = getenv "CONTROL_PLANE_URL" == "";
    handler = handler;
    port = get_env getenv "PORT" "8080";
  })

-- The client with the loader as it is.
abbrev pub with_loader : Client → Loader → Client
with_loader c loader = record c { loader = loader }

-- One step of a running process: a tick of the reload loop, a new connection of the client or a message
-- on it, a request up to its upstream or from there on, or a health check.
pub data Step (lib : Library) (codec : Codec) (p : Process) : Process → Type 0 where
  ticks :
      (checksum_read load_read : Option (List ℕ)) (now : ℕ) (loader : Loader)
      → p.reloads ≡ true
      → try_reload lib p.loader checksum_read load_read now ≡ some loader
      → Step lib codec p (record p { loader = loader })
  connects :
      (c : Client) (conn : ℕ)
      → p.client ≡ some c
      → Step lib codec p (record p { client = some (record c { conn = some conn }) })
  hears :
      (c : Client) (bytes : List ℕ) (now : ℕ)
      → p.client ≡ some c
      → Step lib codec p (record p {
        loader = (handle_message codec (with_loader c p.loader) bytes now).0.loader;
        client = some (handle_message codec (with_loader c p.loader) bytes now).0;
      })
  begins :
      (provider : ConfigProvider) (r : Request) (now : ℕ)
      → Step lib codec p (record p { handler = (begin provider p.handler r now).0 })
  finishes :
      (f : Flight) (u : Upstream) (now : ℕ) (h : Handler) (served : Served)
      → finish p.handler f u now ≡ some (h, served)
      → Step lib codec p (record p { handler = h })
  checks :
      (address : ℕ) (outcome : Health.CheckOutcome) (now : ℕ)
      → Step lib codec p (record p {
        handler = record p.handler {
          health_checker = Health.perform_check p.handler.health_checker address outcome now;
        };
      })

pub data Steps (lib : Library) (codec : Codec) (p : Process) : Process → Type 0 where
  here : Steps lib codec p p
  next : {q s : Process} → Steps lib codec p q → Step lib codec q s → Steps lib codec p s
