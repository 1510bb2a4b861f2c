-- ===== src/ControlPlane/Fleet/Newest.antt =====
-- What is written to a data plane that stays connected, and what it has once it has read it.
use cell_routing_from_scratc.Prelude.{
  ℕ, ◌≡◌, refl, ◌≢◌, true, false, Option, some, List, [], ◌∷◌, ◌++◌, arith, ap, ◌∙◌, Bool-cases,
  inl, inr,
}
use cell_routing_from_scratc.Config.{Config}
use cell_routing_from_scratc.Protocol.{ConfigSnapshotMessage}
use cell_routing_from_scratc.DataPlane.{config_of}
use cell_routing_from_scratc.ControlPlane.{
  Server, same_conn, removed, register_client, broadcast_to,
}
use cell_routing_from_scratc.ControlPlane.Received.{listed, received, received-broadcast}
use cell_routing_from_scratc.ControlPlane.Fleet.{Fleet, delivered}

-- The configuration of the last message on the wire, or else the active one.
unfoldable pub newest : Option Config → List ConfigSnapshotMessage → Option Config
newest active [] = active
newest active (m ∷ rest) = newest (some (config_of m)) rest

newest-append :
    (active : Option Config) (xs ys : List ConfigSnapshotMessage)
    → newest active (xs ++ ys) ≡ newest (newest active xs) ys
unfolding newest
newest-append active [] ys = refl
newest-append active (x ∷ xs) ys = newest-append (some (config_of x)) xs ys

newest-delivered :
    (conn : ℕ) (active : Option Config) (sent : List (ℕ × ConfigSnapshotMessage))
    → newest active (delivered (some conn) sent) ≡ received conn active sent
unfolding newest delivered received
newest-delivered conn active [] = refl
newest-delivered conn active ((k, m) ∷ sent) = elim (Bool-cases (same_conn k conn)) [
  | inl own ↦ rw own (newest-delivered conn (some (config_of m)) sent)
  | inr other ↦ rw other (newest-delivered conn active sent)
]

pub listed-removed :
    (k conn : ℕ) (cs : List ℕ)
    → same_conn k conn ≡ false
    → listed conn (removed k cs) ≡ listed conn cs
unfolding removed
listed-removed k conn [] differs = refl
listed-removed k conn (c ∷ cs) differs = ground (arith, differs, listed-removed k conn cs differs)

-- Another connection than the data plane's own.
pub apart-same_conn :
    (s : Fleet) (other conn : ℕ)
    → s.client.conn ≢ some other
    → s.client.conn ≡ some conn
    → same_conn other conn ≡ false
apart-same_conn s other conn apart own = elim (Bool-cases (same_conn other conn)) [
  | inr differs ↦ differs
  | inl same ↦
      let equal : conn ≡ other = ground (arith, same) in
      absurd (apart (own ∙ ap (λ x. some x) equal))
]

pub listed-register :
    (s : Server) (k conn : ℕ)
    → listed conn s.clients ≡ true
    → listed conn (register_client s k).clients ≡ true
unfolding register_client
listed-register s k conn h = elim (Bool-cases (same_conn k conn)) [
  | inl own ↦ rw own refl
  | inr other ↦ rw other (listed-removed k conn s.clients other ∙ h)
]

-- A broadcast writes its message to the data plane.
pub newest-broadcast :
    (conn : ℕ) (s : Server) (active : Option Config) (wire : List ConfigSnapshotMessage)
    (m : ConfigSnapshotMessage)
    → listed conn s.clients ≡ true
    → newest active (wire ++ delivered (some conn) (broadcast_to s m)) ≡ some (config_of m)
unfolding broadcast_to
newest-broadcast conn s active wire m there =
    newest-append active wire (delivered (some conn) (broadcast_to s m))
    ∙ newest-delivered conn (newest active wire) (broadcast_to s m)
    ∙ received-broadcast conn (newest active wire) m s.clients there
