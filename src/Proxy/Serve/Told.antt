-- ===== src/Proxy/Serve/Told.antt =====
-- What the client is told of a request, and what its log line says.
use cell_routing_from_scratc.Prelude.{
  ℕ, ◌≡◌, refl, ◌≤◌, ◌⊎◌, inl, inr, String, true, false, ◌==◌, Option, none, some, lookup, arith,
  ap, ◌∙◌, sym, subst, Bool-cases,
}
use cell_routing_from_scratc.Prelude.Int.{pos}
use cell_routing_from_scratc.Routing.{ConfigProvider}
use cell_routing_from_scratc.Circuit
use cell_routing_from_scratc.Circuit.{opened}
use cell_routing_from_scratc.Http.{HttpRequest}
use cell_routing_from_scratc.Logging.{Value, text, int}
use cell_routing_from_scratc.Proxy.{Handler}
use cell_routing_from_scratc.Proxy.Exchange.{Request, RequestLog, Served, Flight, answered, plain}
use cell_routing_from_scratc.Proxy.Forward.{reason_text, text_of}
use cell_routing_from_scratc.Proxy.Forward.Headers.{release_last-response}
use cell_routing_from_scratc.Proxy.Logs.{log_request}
use cell_routing_from_scratc.Proxy.Logs.Lines.{log_request-fields}
use cell_routing_from_scratc.Proxy.Serve.{
  begin, Upstream, no_response, responded, reason_header, respond, final_status, finish,
}
use cell_routing_from_scratc.Proxy.Serve.Refusals.{
  Refused, begin-Refused, no_key, unroutable, full, too_large, shut,
}

-- A header of the router's own, if the client gets it, repeats the field of the log line.
abbrev pub Repeats : Option String → Option Value → Type 0
Repeats none field = Unit
Repeats (some told) field = field ≡ some (text told)

-- The status of what came of an exchange, as proxyRequest leaves it.
abbrev pub status_in : Upstream → ℕ
status_in no_response = 502
status_in (responded status copied) = status

module _ (now request_id : String) (req : HttpRequest) (duration : ℕ) where
  -- The log line of a request agrees with what its client was told.
  abbrev pub IsToldAlike : Served → Type 0
  IsToldAlike s =
      let e = log_request now request_id req s.log duration in
      (lookup "status_code" e ≡ some (int (pos s.response.status)))
      × Repeats s.response.routed_to (lookup "placement_key" e)
      × Repeats (text_of reason_text s.response.route_reason) (lookup "route_reason" e)
      × Repeats s.response.failover_reason (lookup "failover_reason" e)

  plain-IsToldAlike :
      (log : RequestLog) (state : Option Circuit.State)
      → IsToldAlike (record {
        response = record (plain log.status_code) { circuit_state = state };
        log = log;
      })
  plain-IsToldAlike log state = ((log_request-fields now request_id req log duration).4, tt, tt, tt)

  Refused-IsToldAlike :
      (provider : ConfigProvider) (h : Handler) (r : Request) (at : ℕ) (s : Served)
      → Refused provider h r at s
      → IsToldAlike s
  Refused-IsToldAlike provider h r at s (no_key k e) =
      subst IsToldAlike (sym e) (plain-IsToldAlike _ none)
  Refused-IsToldAlike provider h r at s (unroutable x k q e) =
      subst IsToldAlike (sym e) (plain-IsToldAlike _ none)
  Refused-IsToldAlike provider h r at s (full d q busy e) =
      subst IsToldAlike (sym e) (plain-IsToldAlike _ none)
  Refused-IsToldAlike provider h r at s (too_large d q free large e) =
      subst IsToldAlike (sym e) (plain-IsToldAlike _ none)
  Refused-IsToldAlike provider h r at s (shut d q free fits is_shut no_other e) =
      subst IsToldAlike (sym e) (plain-IsToldAlike _ (some opened))

  final_status-eq : (u : Upstream) → 1 ≤ status_in u → final_status u ≡ status_in u
  unfolding final_status
  final_status-eq no_response ok = refl
  final_status-eq (responded status true) ok = refl
  final_status-eq (responded status false) ok = ground arith

  reason-Repeats :
      (why : String) (log : RequestLog)
      → log.failover_reason ≡ why
      → Repeats
          (reason_header why)
          (lookup "failover_reason" (log_request now request_id req log duration))
  reason-Repeats why log e = elim (Bool-cases (why == "")) [
    | inl direct ↦ rw (direct, reason_header) tt
    | inr over ↦
        rw (over, reason_header)
          ((log_request-fields now request_id req log duration).5 ∙ rw e (rw over refl))
  ]

  finish-IsToldAlike :
      (h h' : Handler) (f : Flight) (u : Upstream) (at : ℕ) (s : Served)
      → finish h f u at ≡ some (h', s)
      → 1 ≤ status_in u
      → IsToldAlike s
  unfolding finish respond final_status
  finish-IsToldAlike h h' f no_response at s e ok =
      subst IsToldAlike (sym (release_last-response _ h' f.acquired _ s e))
        (plain-IsToldAlike _ none)
  finish-IsToldAlike h h' f (responded status copied) at s e ok =
      let log : RequestLog = record {
        routing_key = f.routing_key;
        placement_key = f.decision.placement_key;
        route_reason = some f.decision.reason;
        upstream_url = f.decision.endpoint_url;
        status_code = final_status (responded status copied);
        failover_reason = f.failover_reason;
      } in
      let fields = log_request-fields now request_id req log duration in
      subst IsToldAlike (sym (release_last-response _ h' f.acquired _ s e)) (
        fields.4 ∙ ap (λ n. some (int (pos n))) (final_status-eq (responded status copied) ok),
        fields.1,
        fields.2,
        reason-Repeats f.failover_reason log refl,
      )

  -- The log line of a request says what its client was told, whether the router answered the request itself
  -- or completed it with an upstream, of any outcome with a positive status: the status is the client's, and
  -- the placement, the route reason and the failover reason are those of the headers that the client gets.
  pub log_request-IsToldAlike :
      (s : Served)
      → ((provider : ConfigProvider) × (h : Handler) × (r : Request) × (at : ℕ) × ((begin provider h
              r at).1
            ≡ answered s))
        ⊎ ((h : Handler) × (h' : Handler) × (f : Flight) × (u : Upstream) × (at : ℕ) × (finish h f u
                at
              ≡ some (h', s))
            × (1 ≤ status_in u))
      → IsToldAlike s
  log_request-IsToldAlike s (inl (provider, h, r, at, e)) =
      Refused-IsToldAlike provider h r at s (begin-Refused provider h r at s e)
  log_request-IsToldAlike s (inr (h, h', f, u, at, e, ok)) = finish-IsToldAlike h h' f u at s e ok
