-- ===== src/DataPlane.antt =====
-- internal/dataplane/client.go: the data plane's client of the control plane. A connection is its number;
-- what is read from it and whether a dial succeeds are arguments, and what is written to it is a list of
-- messages, which a failing write (it is only logged) does not change. Log lines are left out.
use cell_routing_from_scratc.Prelude.{
  ℕ, ◌*◌, String, Bool, true, false, not, ◌||◌, ◌==◌, ltb, if◌then◌else◌, Option, none, some, List,
  [], ◌∷◌, ◌++◌, Result, ok, err, panic,
}
use cell_routing_from_scratc.Config.{Config}
use cell_routing_from_scratc.Loader.{Loader, apply_config}
use cell_routing_from_scratc.Protocol.{
  config_snapshot, ack, nack, Message, ConfigSnapshotMessage, AckMessage, NackMessage,
}
pub mod Backoff
pub mod Snapshots
pub mod Stopping
mod Tests

-- encoding/json on the messages that arrive; an error of the second is its text.
pub record Codec : Type 0 where
  pub unmarshal_message : List ℕ → Option Message
  pub unmarshal_snapshot : List ℕ → Result String ConfigSnapshotMessage

pub record Client : Type 0 where
  pub cp_url : String
  pub loader : Loader
  pub conn : Option ℕ
  pub stopped : Bool  -- stopCh is closed
  pub reconnect : Bool

unfoldable pub new_client : String → Loader → Client
new_client cp_url loader = record {
  cp_url = cp_url;
  loader = loader;
  conn = none;
  stopped = false;
  reconnect = true;
}

-- `none` is the panic of a second close of stopCh. The connection that Stop closes yields no more messages;
-- Stop then waits for the connection loop to end.
unfoldable pub stop : Client → Option Client
stop c = if c.stopped then none else some (record c { reconnect = false; stopped = true })

-- `none` is a failed dial.
unfoldable pub connect : Client → Option ℕ → Option Client
connect c none = none
connect c (some conn) = some (record c { conn = some conn })

pub data Reply : Type 0 where
  acks : AckMessage → Reply
  nacks : NackMessage → Reply

send : Option ℕ → Reply → List Reply
send none reply = []
send (some conn) reply = reply ∷ []

unfoldable pub send_ack : Client → List Reply
unfolding send
send_ack c = send c.conn (acks (record { message_type = ack; version = "" }))

unfoldable pub send_nack : Client → String → List Reply
unfolding send
send_nack c reason =
    send c.conn (nacks (record { message_type = nack; version = ""; error = reason }))

abbrev pub config_of : ConfigSnapshotMessage → Config
config_of snapshot = record {
  version = snapshot.version;
  routing_table = snapshot.routing_table;
  cell_endpoints = snapshot.cell_endpoints;
  placements = [];
  default_placement = snapshot.default_placement;
}

module _ (codec : Codec) where
  -- ApplyConfig returns no error, so the second nack of the source is never sent.
  unfoldable pub handle_config_snapshot : Client → List ℕ → ℕ → Client × List Reply
  unfolding send_ack send_nack apply_config
  handle_config_snapshot c bytes now = elim (codec.unmarshal_snapshot bytes) [
    | ok snapshot ↦
        (record c { loader = apply_config c.loader (config_of snapshot) now }, send_ack c)
    | err reason ↦ (c, send_nack c reason)
    | panic ↦ (c, [])
  ]

  -- The body of the loop of `handleMessages`, for a message that was read.
  unfoldable pub handle_message : Client → List ℕ → ℕ → Client × List Reply
  unfolding handle_config_snapshot
  handle_message c bytes now = elim (codec.unmarshal_message bytes) [
    | none ↦ (c, [])
    | some m ↦
        if m.message_type == config_snapshot then handle_config_snapshot c bytes now else (c, [])
  ]

  -- The messages that are read before the connection fails, each with its time.
  unfoldable pub handle_messages : Client → List (List ℕ × ℕ) → Client × List Reply
  unfolding handle_message
  handle_messages c [] = (c, [])
  handle_messages c ((bytes, now) ∷ rest) = elim c.conn [
    | none ↦ (c, [])
    | some conn ↦
        let (c', replies) = handle_message c bytes now in
        let (c'', later) = handle_messages c' rest in (c'', replies ++ later)
  ]

-- One turn of the connection loop: what it reads of stopCh and of `reconnect`, which `Stop` changes
-- meanwhile, and the connection of its dial with the messages that arrive on it.
pub record Turn : Type 0 where
  pub stopping : Bool
  pub reconnecting : Bool
  pub dialled : Option (ℕ × List (List ℕ × ℕ))

abbrev pub second : ℕ
second = 1000000000

-- `backoff *= 2`, at most maxBackoff.
unfoldable pub next_backoff : ℕ → ℕ
next_backoff backoff =
    let doubled = backoff * 2 in if ltb (60 * second) doubled then 60 * second else doubled

abbrev pub leaves : Turn → Bool
leaves t = t.stopping || not t.reconnecting

-- The client that the loop leaves, and how long it slept after each failed dial.
unfoldable pub connection_loop : Codec → Client → ℕ → List Turn → Client × List ℕ
unfolding connect handle_messages next_backoff
connection_loop codec c backoff [] = (c, [])
connection_loop codec c backoff (t ∷ ts) = elim (leaves t) [
  | true ↦ (c, [])
  | false ↦ elim t.dialled [
    | none ↦
        let (c', sleeps) = connection_loop codec c (next_backoff backoff) ts in
        (c', backoff ∷ sleeps)
    | some (conn, messages) ↦
        connection_loop codec (handle_messages codec (record c { conn = some conn }) messages).0
          second ts
  ]
]
