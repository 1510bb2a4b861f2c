-- ===== src/Proxy/Exchange.antt =====
-- internal/proxy/handler.go: what ServeHTTP reads of a request, and what it answers, logs and passes on.
use cell_routing_from_scratc.Prelude.{ℕ, String, Option, none, some}
use cell_routing_from_scratc.Prelude.Int.{ℤ}
use cell_routing_from_scratc.Routing.{RouteReason, RoutingDecision}
use cell_routing_from_scratc.Circuit

-- What ServeHTTP reads of a request; a header that is not there is "".
pub record Request : Type 0 where
  pub routing_key : String
  pub content_length : ℤ

-- The status and the headers of the router's own that the client gets.
pub record Response : Type 0 where
  pub status : ℕ
  pub routed_to : Option String
  pub route_reason : Option RouteReason
  pub failover_reason : Option String
  pub circuit_state : Option Circuit.State

-- The fields of logRequest that the router decides.
pub record RequestLog : Type 0 where
  pub routing_key : String
  pub placement_key : String
  pub route_reason : Option RouteReason
  pub upstream_url : String
  pub status_code : ℕ
  pub failover_reason : String

pub record Served : Type 0 where
  pub response : Response
  pub log : RequestLog

-- A request on its way to the upstream. `acquired` is the placement that the router chose first, whose
-- slot is held and whose breaker will get the outcome.
pub record Flight : Type 0 where
  pub routing_key : String
  pub acquired : String
  pub decision : RoutingDecision
  pub failover_reason : String

pub data Begun : Type 0 where
  answered : Served → Begun
  forwards : Flight → Begun
  crashed : Begun  -- a panic, which net/http catches
  stuck : (acquired : String) → Begun  -- the deferred Release blocks

-- http.Error, with no header of the router's own.
abbrev pub plain : ℕ → Response
plain status = record {
  status = status;
  routed_to = none;
  route_reason = none;
  failover_reason = none;
  circuit_state = none;
}

abbrev pub early : String → ℕ → Served
early routing_key status = record {
  response = plain status;
  log = record {
    routing_key = routing_key;
    placement_key = "";
    route_reason = none;
    upstream_url = "";
    status_code = status;
    failover_reason = "";
  };
}

abbrev pub rejected : String → RoutingDecision → ℕ → String → Option Circuit.State → Served
rejected routing_key d status why state = record {
  response = record (plain status) { circuit_state = state };
  log = record {
    routing_key = routing_key;
    placement_key = d.placement_key;
    route_reason = some d.reason;
    upstream_url = d.endpoint_url;
    status_code = status;
    failover_reason = why;
  };
}
