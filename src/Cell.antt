-- ===== src/Cell.antt =====
-- cmd/cell/main.go: the demo cell. The environment is a function, "" where a variable is not set; the
-- clock's reading is a text. The listening and the shutdown of the server are left out.
use cell_routing_from_scratc.Prelude.{
  ℕ, String, ◌<>◌, ◌==◌, List, [], ◌∷◌, if◌then◌else◌, GoMap, insert,
}
use cell_routing_from_scratc.Http.{Header, get, set_header, HttpRequest}
pub mod Echoes
mod Tests

pub record Cell : Type 0 where
  pub cell_name : String
  pub port : String

or_default : String → String → String
or_default value fallback = if value == "" then fallback else value

unfoldable pub configure : (String → String) → Cell
unfolding or_default
configure getenv = record {
  cell_name = or_default (getenv "CELL_NAME") "unknown-cell";
  port = or_default (getenv "PORT") "9000";
}

abbrev pub interesting_headers : List String
interesting_headers =
    "X-Request-Id" ∷ "X-Routing-Key" ∷ "X-Forwarded-For" ∷ "X-Forwarded-Proto" ∷ "User-Agent"
    ∷ "Content-Type" ∷ []

-- The loop over the keys, with the map as it is so far.
unfoldable pub extract_each : List String → Header → GoMap String → GoMap String
extract_each [] h headers = headers
extract_each (key ∷ keys) h headers =
    let value = get key h in
    extract_each keys h (if value == "" then headers else insert key value headers)

unfoldable pub extract_headers : HttpRequest → GoMap String
unfolding extract_each
extract_headers r = extract_each interesting_headers r.header []

-- The JSON body of an answer.
pub record Echo : Type 0 where
  pub cell : String
  pub timestamp : String
  pub method : String
  pub path : String
  pub query : String
  pub headers : GoMap String
  pub message : String

pub data Body : Type 0 where
  echo : Echo → Body
  is_healthy : (cell : String) → Body

pub record Answer : Type 0 where
  pub status : ℕ
  pub header : Header
  pub body : Body

-- The log entry of a request; the three headers are there if they have a value.
add_field : String → String → GoMap String → GoMap String
add_field key value entry = if value == "" then entry else insert key value entry

unfoldable pub log_entry : Cell → HttpRequest → String → GoMap String
unfolding add_field
log_entry c r now =
    let base : GoMap String =
      ("timestamp", now)
      ∷ ("cell", c.cell_name)
      ∷ ("method", r.method)
      ∷ ("path", r.path)
      ∷ ("query", r.raw_query)
      ∷ ("remote_addr", r.remote_addr)
      ∷ [] in
    add_field "forwarded_for" (get "X-Forwarded-For" r.header) (
      add_field "routing_key" (get "X-Routing-Key" r.header)
        (add_field "request_id" (get "X-Request-Id" r.header) base))

abbrev pub echo_of : Cell → HttpRequest → String → Echo
echo_of c r now = record {
  cell = c.cell_name;
  timestamp = now;
  method = r.method;
  path = r.path;
  query = r.raw_query;
  headers = extract_headers r;
  message = "Hello from " <> c.cell_name <> "!";
}

unfoldable pub handle_root : Cell → HttpRequest → String → Answer
handle_root c r now = record {
  status = 200;
  header = set_header "X-Cell-Name" c.cell_name (set_header "Content-Type" "application/json" []);
  body = echo (echo_of c r now);
}

unfoldable pub handle_health : Cell → Answer
handle_health c = record {
  status = 200;
  header = set_header "Content-Type" "application/json" [];
  body = is_healthy c.cell_name;
}

-- The two registered patterns, for a path that net/http does not redirect.
unfoldable pub serve : Cell → HttpRequest → String → Answer
unfolding handle_root handle_health
serve c r now = if r.path == "/health" then handle_health c else handle_root c r now
