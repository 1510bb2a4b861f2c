-- ===== src/ControlPlane/Received.antt =====
-- What a data plane makes of the messages that the control plane wrote.
use cell_routing_from_scratc.Prelude.{
  ℕ, ◌≡◌, refl, Bool, true, false, Option, some, List, [], ◌∷◌, map, arith, Bool-cases, inl, inr,
  if◌then◌else◌, ◌||◌,
}
use cell_routing_from_scratc.Config.{Config}
use cell_routing_from_scratc.Protocol.{ConfigSnapshotMessage}
use cell_routing_from_scratc.DataPlane.{config_of}
use cell_routing_from_scratc.ControlPlane.{same_conn}

abbrev pub listed : ℕ → List ℕ → Bool
listed conn [] = false
listed conn (c ∷ cs) = same_conn c conn || listed conn cs

-- The configuration that a client has after the messages that were written to it.
unfoldable pub received : ℕ → Option Config → List (ℕ × ConfigSnapshotMessage) → Option Config
received conn active [] = active
received conn active ((k, m) ∷ rest) =
    received conn (if same_conn k conn then some (config_of m) else active) rest

received-same :
    (conn : ℕ) (m : ConfigSnapshotMessage) (cs : List ℕ)
    → received conn (some (config_of m)) (map (λ k. (k, m)) cs) ≡ some (config_of m)
unfolding received
received-same conn m [] = refl
received-same conn m (c ∷ cs) = elim (Bool-cases (same_conn c conn)) [
  | inl own ↦ rw (own, received) (received-same conn m cs)
  | inr other ↦ rw (other, received) (received-same conn m cs)
]

pub received-broadcast :
    (conn : ℕ) (active : Option Config) (m : ConfigSnapshotMessage) (cs : List ℕ)
    → listed conn cs ≡ true
    → received conn active (map (λ k. (k, m)) cs) ≡ some (config_of m)
unfolding received
received-broadcast conn active m [] h = cc
received-broadcast conn active m (c ∷ cs) h = elim (Bool-cases (same_conn c conn)) [
  | inl own ↦ rw (own, received) (received-same conn m cs)
  | inr other ↦ rw (other, received) (received-broadcast conn active m cs (rw other at h))
]

pub same_conn_refl : (conn : ℕ) → same_conn conn conn ≡ true
same_conn_refl conn = ground arith
