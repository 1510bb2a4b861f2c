-- ===== src/Proxy/Forward/Headers.antt =====
-- The headers that the upstream and the client get.
use cell_routing_from_scratc.Prelude.{
  IsMap, ℕ, ◌≡◌, refl, String, Bool, ◌==◌, Option, none, some, List, [], ◌∷◌, if◌then◌else◌, eq_iff,
  arith, ap, subst, ◌∙◌, Bool-cases, inl, inr, lookup,
}
use cell_routing_from_scratc.Http.{Header, values, get, set_header, copy_header, HttpRequest}
use cell_routing_from_scratc.Http.Headers.{values-set_header, values-copy_header}
use cell_routing_from_scratc.Circuit
use cell_routing_from_scratc.Proxy.{Handler}
use cell_routing_from_scratc.Proxy.Exchange.{Flight, Response, Served}
use cell_routing_from_scratc.Proxy.Serve.{
  Upstream, responded, finish, respond, release_last, reason_header,
}
use cell_routing_from_scratc.Proxy.Forward.{
  header_request_id, header_forwarded_for, header_forwarded_proto, header_routed_to,
  header_route_reason, header_failover_reason, header_circuit_state, Net, chained, proto_of,
  forwarded_header, reason_text, state_text, set_some, text_of, written_header,
}

copied :
    (from : Header) (key : String) → IsMap from → values key (copy_header from []) ≡ values key from
copied from key m = values-copy_header from [] key m ∙ unfold values lookup in refl

-- The header of a forwarded request, at every key: the protocol, the chain of addresses and the request id
-- are the router's own, with one value each; the chain goes on from the first value that the client sent;
-- all values of any other header are passed on as they came.
pub forwarded_header-values :
    (net : Net) (r : HttpRequest) (request_id key : String)
    → IsMap r.header
    → values key (forwarded_header net r request_id) ≡ (
        if header_forwarded_proto == key
        then proto_of r.tls ∷ []
        else if header_forwarded_for == key
        then chained (get header_forwarded_for r.header) (net.split_host r.remote_addr) ∷ []
        else if header_request_id == key
        then request_id ∷ []
        else values key r.header)
unfolding forwarded_header get
forwarded_header-values net r request_id key m =
    let with_id = set_header header_request_id request_id (copy_header r.header []) in
    let prior : values header_forwarded_for with_id ≡ values header_forwarded_for r.header =
      values-set_header header_request_id header_forwarded_for request_id (copy_header r.header [])
      ∙ copied r.header header_forwarded_for m in
    let with_for =
      set_header header_forwarded_for
        (chained (get header_forwarded_for with_id) (net.split_host r.remote_addr)) with_id in
    ground (
      arith,
      prior,
      copied r.header key m,
      values-set_header header_request_id key request_id (copy_header r.header []),
      values-set_header header_forwarded_for key
          (chained (get header_forwarded_for with_id) (net.split_host r.remote_addr)) with_id,
      values-set_header header_forwarded_proto key (proto_of r.tls) with_for,
    )

-- A value of the router's own in place of those that were there.
abbrev own : Option String → List String → List String
own none vs = vs
own (some v) vs = v ∷ []

values-set_some :
    (key other : String) (value : Option String) (h : Header)
    → values other (set_some key value h)
      ≡ (if key == other then own value (values other h) else values other h)
unfolding set_some
values-set_some key other none h = ground arith
values-set_some key other (some value) h = values-set_header key other value h

-- One header set over the values of the others.
abbrev over : String → String → Option String → List String → List String
over key at value vs = if at == key then own value vs else vs

written_header-values :
    (r : Response) (upstream : Header) (key : String)
    → IsMap upstream
    → values key (written_header r upstream)
      ≡ over key header_circuit_state (text_of state_text r.circuit_state) (
          over key header_failover_reason r.failover_reason (
            over key header_route_reason
              (text_of reason_text r.route_reason)
              (over key header_routed_to r.routed_to (values key upstream))))
unfolding written_header
written_header-values r upstream key m =
    values-set_some header_circuit_state key (text_of state_text r.circuit_state) _
    ∙ ap (over key header_circuit_state (text_of state_text r.circuit_state)) (
        values-set_some header_failover_reason key r.failover_reason _
        ∙ ap (over key header_failover_reason r.failover_reason) (
            values-set_some header_route_reason key (text_of reason_text r.route_reason) _
            ∙ ap (over key header_route_reason (text_of reason_text r.route_reason)) (
                values-set_some header_routed_to key r.routed_to _
                ∙ ap (over key header_routed_to r.routed_to) (copied upstream key m))))

-- Without a failover reason the values under it are the upstream's.
over_without_reason :
    (key state reason placement : String) (vs : List String)
    → over key header_circuit_state (some state) (
        over key header_failover_reason none (
          over key header_route_reason
            (some reason)
            (over key header_routed_to (some placement) vs)))
      ≡ (if header_circuit_state == key
          then state ∷ []
          else if header_failover_reason == key
          then vs
          else if header_route_reason == key
          then reason ∷ []
          else if header_routed_to == key
          then placement ∷ []
          else vs)
over_without_reason key state reason placement vs =
    elim (Bool-cases (header_failover_reason == key)) [
      | inl same ↦
          subst
            (λ k.
              over k header_circuit_state (some state) (
                over k header_failover_reason none (
                  over k header_route_reason (some reason)
                    (over k header_routed_to (some placement) vs)))
              ≡ (if header_circuit_state == k
                  then state ∷ []
                  else if header_failover_reason == k
                  then vs
                  else if header_route_reason == k
                  then reason ∷ []
                  else if header_routed_to == k
                  then placement ∷ []
                  else vs))
            ((eq_iff header_failover_reason key).0 same) refl
      | inr other ↦ rw other refl
    ]

pub release_last-response :
    (h h' : Handler) (acquired : String) (served served' : Served)
    → release_last h acquired served ≡ some (h', served')
    → served' ≡ served
unfolding release_last
release_last-response h h' acquired served served' e = ground arith

finish-response :
    (h h' : Handler) (f : Flight) (u : Upstream) (now : ℕ) (served : Served)
    → finish h f u now ≡ some (h', served)
    → served.response ≡ (respond h f u now).1
unfolding finish
finish-response h h' f u now served e =
    ap (λ s. s.response) (release_last-response _ h' f.acquired _ served e)

-- Once an answered request is completed, the client gets the router's own headers, with one value each,
-- in place of the upstream's: the placement, the reason and the breaker's state always, the failover reason
-- if there was a failover. All other headers are the upstream's, and so is X-Failover-Reason if there was
-- no failover.
pub finish-values :
    (h h' : Handler) (f : Flight) (status : ℕ) (is_copied : Bool) (now : ℕ) (served : Served)
    (upstream : Header) (key : String)
    → finish h f (responded status is_copied) now ≡ some (h', served)
    → IsMap upstream
    → values key (written_header served.response upstream) ≡ (
        if header_circuit_state == key
        then state_text (Circuit.get_breaker h.circuit_manager f.decision.placement_key now).1.state
          ∷ []
        else if header_failover_reason == key
        then if f.failover_reason == "" then values key upstream else f.failover_reason ∷ []
        else if header_route_reason == key
        then reason_text f.decision.reason ∷ []
        else if header_routed_to == key
        then f.decision.placement_key ∷ []
        else values key upstream)
unfolding respond
finish-values h h' f status is_copied now served upstream key e m =
    let r = (respond h f (responded status is_copied) now).1 in
    ap (λ x. values key (written_header x upstream))
      (finish-response h h' f (responded status is_copied) now served e)
    ∙ written_header-values r upstream key m
    ∙ elim (Bool-cases (f.failover_reason == "")) [
      | inl direct ↦
          rw (direct, reason_header)
            (over_without_reason key
              (state_text
                (Circuit.get_breaker h.circuit_manager f.decision.placement_key now).1.state)
              (reason_text f.decision.reason) f.decision.placement_key (values key upstream))
      | inr again ↦ rw (again, reason_header) refl
    ]
