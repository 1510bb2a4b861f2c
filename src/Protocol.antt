-- ===== src/Protocol.antt =====
-- internal/protocol/messages.go: the messages between the control plane and the data planes.
use cell_routing_from_scratc.Prelude.{String, GoMap}

-- A MessageType is a string, so one that is no constant can arrive.
abbrev pub config_snapshot : String
config_snapshot = "config_snapshot"

abbrev pub ack : String
ack = "ack"

abbrev pub nack : String
nack = "nack"

pub record Message : Type 0 where
  pub message_type : String
  pub version : String

pub record ConfigSnapshotMessage : Type 0 where
  pub message_type : String
  pub version : String
  pub routing_table : GoMap String
  pub cell_endpoints : GoMap String
  pub default_placement : String

pub record AckMessage : Type 0 where
  pub message_type : String
  pub version : String

pub record NackMessage : Type 0 where
  pub message_type : String
  pub version : String
  pub error : String
