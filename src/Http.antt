-- ===== src/Http.antt =====
-- Go's http.Header as the program uses it: a map from a key to its values. Every key stands in its
-- canonical form: net/http puts the keys of what it reads in that form, and so are the program's own.
use cell_routing_from_scratc.Prelude.{
  String, Bool, Option, none, some, List, [], ◌∷◌, ◌++◌, GoMap, lookup, insert,
}
use cell_routing_from_scratc.Prelude.Int.{ℤ}
pub mod Headers

abbrev pub Header : Type 0
Header = GoMap (List String)

abbrev pub all_of : Option (List String) → List String
all_of none = []
all_of (some vs) = vs

abbrev pub first_of : List String → String
first_of [] = ""
first_of (v ∷ vs) = v

-- `h[key]`, where no entry and no value are alike.
unfoldable pub values : String → Header → List String
values key h = all_of (lookup key h)

-- `h.Get(key)`
unfoldable pub get : String → Header → String
unfolding values
get key h = first_of (values key h)

-- `h.Set(key, value)`
unfoldable pub set_header : String → String → Header → Header
set_header key value h = insert key (value ∷ []) h

-- `h.Add(key, value)`
unfoldable pub add_header : String → String → Header → Header
unfolding values
add_header key value h = insert key (values key h ++ (value ∷ [])) h

unfoldable pub add_each : String → List String → Header → Header
unfolding add_header
add_each key [] h = h
add_each key (v ∷ vs) h = add_each key vs (add_header key v h)

-- `for key, values := range from { for _, value := range values { to.Add(key, value) } }`
unfoldable pub copy_header : Header → Header → Header
unfolding add_each
copy_header [] to = to
copy_header ((key, vs) ∷ from) to = copy_header from (add_each key vs to)

-- What the program reads of an http.Request. `tls` says whether TLS is not nil.
pub record HttpRequest : Type 0 where
  pub method : String
  pub path : String
  pub raw_query : String
  pub header : Header
  pub remote_addr : String
  pub tls : Bool
  pub content_length : ℤ
