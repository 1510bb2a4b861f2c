-- ===== src/ControlPlane/Connections.antt =====
-- The set of clients, in the course of connections that open and close.
use cell_routing_from_scratc.Prelude.{
  ℕ, ◌+◌, ◌≡◌, refl, Bool, true, false, some, List, [], ◌∷◌, map, if◌then◌else◌, arith, ap, sym,
  ◌∙◌, subst, Option-cases, inl, inr, All,
}
use cell_routing_from_scratc.Config.{Config, Library}
use cell_routing_from_scratc.Config.Validity.{IsValid}
use cell_routing_from_scratc.Loader.{get_config, try_reload}
use cell_routing_from_scratc.Loader.LastKnownGood.{HasValid, try_reload-HasValid}
use cell_routing_from_scratc.Protocol.{ConfigSnapshotMessage}
use cell_routing_from_scratc.ControlPlane.{
  Server, same_conn, removed, register_client, unregister_client, send_config_to_client,
  open_connection, snapshot_of, broadcast_config, Event, opens, hears, closes, ticks, happen,
  history,
}

abbrev pub once : Bool → ℕ
once b = if b then 1 else 0

abbrev pub count : ℕ → List ℕ → ℕ
count conn [] = 0
count conn (c ∷ cs) = once (same_conn c conn) + count conn cs

-- How many of the writes go to a connection.
abbrev pub written : ℕ → List (ℕ × ConfigSnapshotMessage) → ℕ
written conn [] = 0
written conn ((c, m) ∷ sent) = once (same_conn c conn) + written conn sent

-- Whether a connection is open after the events, if it was so before or not.
unfoldable pub is_open : ℕ → Bool → List Event → Bool
is_open conn before [] = before
is_open conn before (opens c ∷ es) = is_open conn (if same_conn c conn then true else before) es
is_open conn before (closes c ∷ es) = is_open conn (if same_conn c conn then false else before) es
is_open conn before (hears c bytes ∷ es) = is_open conn before es
is_open conn before (ticks checksum_read load_read now ∷ es) = is_open conn before es

count-removed :
    (k conn : ℕ) (cs : List ℕ)
    → count conn (removed k cs) ≡ (if same_conn k conn then 0 else count conn cs)
unfolding removed
count-removed k conn [] = ground arith
count-removed k conn (c ∷ cs) = ground (arith, count-removed k conn cs)

written-map :
    (conn : ℕ) (m : ConfigSnapshotMessage) (cs : List ℕ)
    → written conn (map (λ c. (c, m)) cs) ≡ count conn cs
written-map conn m [] = refl
written-map conn m (c ∷ cs) = ap (λ n. once (same_conn c conn) + n) (written-map conn m cs)

-- The state of one connection after one event.
abbrev after : ℕ → Bool → Event → Bool
after conn before (opens c) = if same_conn c conn then true else before
after conn before (closes c) = if same_conn c conn then false else before
after conn before (hears c bytes) = before
after conn before (ticks checksum_read load_read now) = before

happen-count :
    (lib : Library) (s s' : Server) (e : Event) (conn : ℕ) (before : Bool)
    → happen lib s e ≡ some s'
    → count conn s.clients ≡ once before
    → count conn s'.clients ≡ once (after conn before e)
unfolding happen open_connection register_client unregister_client
happen-count lib s s' (opens c) conn before e h =
    elim (Option-cases (send_config_to_client (register_client s c) c)) [
      | inl none_yet ↦ absurd (ground (arith, none_yet))
      | inr (sent, wrote) ↦
          let new : s'.clients ≡ c ∷ removed c s.clients = ground (arith, wrote) in
          ap (count conn) new ∙ ground (arith, count-removed c conn s.clients)
    ]
happen-count lib s s' (hears c bytes) conn before e h = ground arith
happen-count lib s s' (closes c) conn before e h =
    let new : s'.clients ≡ removed c s.clients = ground arith in
    ap (count conn) new ∙ ground (arith, count-removed c conn s.clients)
happen-count lib s s' (ticks checksum_read load_read now) conn before e h =
    elim (Option-cases (try_reload lib s.config_loader checksum_read load_read now)) [
      | inl crashed ↦ absurd (ground (arith, crashed))
      | inr (l, reloaded) ↦
          let new : s'.clients ≡ s.clients = ground (arith, reloaded) in ap (count conn) new ∙ h
    ]

happen-HasValid :
    (lib : Library) (s s' : Server) (e : Event)
    → happen lib s e ≡ some s'
    → HasValid lib s.config_loader
    → HasValid lib s'.config_loader
unfolding happen open_connection register_client unregister_client
happen-HasValid lib s s' (opens c) e v =
    elim (Option-cases (send_config_to_client (register_client s c) c)) [
      | inl none_yet ↦ absurd (ground (arith, none_yet))
      | inr (sent, wrote) ↦
          let same : s.config_loader ≡ s'.config_loader = ground (arith, wrote) in
          subst (HasValid lib) same v
    ]
happen-HasValid lib s s' (hears c bytes) e v =
    let same : s.config_loader ≡ s'.config_loader = ground arith in subst (HasValid lib) same v
happen-HasValid lib s s' (closes c) e v =
    let same : s.config_loader ≡ s'.config_loader = ground arith in subst (HasValid lib) same v
happen-HasValid lib s s' (ticks checksum_read load_read now) e v =
    elim (Option-cases (try_reload lib s.config_loader checksum_read load_read now)) [
      | inl crashed ↦ absurd (ground (arith, crashed))
      | inr (l, reloaded) ↦
          let same : l ≡ s'.config_loader = ground (arith, reloaded) in
          subst (HasValid lib) same
            (try_reload-HasValid lib s.config_loader l checksum_read load_read now reloaded v)
    ]

pub history-HasValid :
    (lib : Library) (es : List Event) (s s' : Server)
    → history lib s es ≡ some s'
    → HasValid lib s.config_loader
    → HasValid lib s'.config_loader
unfolding history
history-HasValid lib [] s s' e v =
    let same : s.config_loader ≡ s'.config_loader = ground arith in subst (HasValid lib) same v
history-HasValid lib (x ∷ es) s s' e v = elim (Option-cases (happen lib s x)) [
  | inl crashed ↦ absurd (ground (arith, crashed))
  | inr (t, stepped) ↦
      history-HasValid lib es t s' (ground (arith, stepped)) (happen-HasValid lib s t x stepped v)
]

is_open-after :
    (conn : ℕ) (before : Bool) (e : Event) (es : List Event)
    → is_open conn before (e ∷ es) ≡ is_open conn (after conn before e) es
unfolding is_open
is_open-after conn before (opens c) es = refl
is_open-after conn before (closes c) es = refl
is_open-after conn before (hears c bytes) es = refl
is_open-after conn before (ticks checksum_read load_read now) es = refl

pub history-count :
    (lib : Library) (es : List Event) (s s' : Server) (conn : ℕ) (before : Bool)
    → history lib s es ≡ some s'
    → count conn s.clients ≡ once before
    → count conn s'.clients ≡ once (is_open conn before es)
unfolding history is_open
history-count lib [] s s' conn before e h =
    let same : s'.clients ≡ s.clients = ground arith in ap (count conn) same ∙ h
history-count lib (x ∷ es) s s' conn before e h = elim (Option-cases (happen lib s x)) [
  | inl crashed ↦ absurd (ground (arith, crashed))
  | inr (t, stepped) ↦
      history-count lib es t s' conn (after conn before x) (ground (arith, stepped))
        (happen-count lib s t x conn before stepped h)
      ∙ ap once (sym (is_open-after conn before x es))
]

All-map :
    (m : ConfigSnapshotMessage) (cs : List ℕ)
    → All (λ (e : ℕ × ConfigSnapshotMessage). e.1 ≡ m) (map (λ c. (c, m)) cs)
All-map m [] = tt
All-map m (c ∷ cs) = (refl, All-map m cs)

-- After any history of a server that starts with no client and a valid configuration, and that has not
-- panicked, a broadcast is of the active configuration, which is valid, and it writes exactly once to each
-- connection that was opened and not closed since, and to no other one.
pub history-broadcasts :
    (lib : Library) (es : List Event) (s s' : Server)
    → HasValid lib s.config_loader
    → s.clients ≡ []
    → history lib s es ≡ some s'
    → (cfg : Config) × (sent : List (ℕ × ConfigSnapshotMessage)) × (get_config s'.config_loader
        ≡ some cfg)
      × IsValid lib cfg
      × (broadcast_config s' ≡ some sent)
      × All (λ e. e.1 ≡ snapshot_of cfg) sent
      × ((conn : ℕ) → written conn sent ≡ once (is_open conn false es))
unfolding broadcast_config get_config
history-broadcasts lib es s s' v empty e =
    let (cfg, active, valid) = history-HasValid lib es s s' e v in
    (
      cfg,
      map (λ c. (c, snapshot_of cfg)) s'.clients,
      active,
      valid,
      ground (arith, active),
      All-map (snapshot_of cfg) s'.clients,
      λ conn.
          written-map conn (snapshot_of cfg) s'.clients
          ∙ history-count lib es s s' conn false e (ap (count conn) empty),
    )
