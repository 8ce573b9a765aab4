-- ===== src/Heartbeat.antt =====
-- src/vpn/heartbeat.rs: the messages by which nodes show that they are alive, and the
-- state that is kept for each. An `Instant` is a number of nanoseconds.
pub mod Manager
pub mod RoundTrip
pub mod Detection
pub mod Alternation
pub mod Run
mod Tests
use ll_vpn.Common.{
  ℕ, ◌+◌, Bool, true, ◌∷◌, ◌++◌, Option, none, some, ltb, leb, ◌==◌, if◌then◌else◌, length, take,
  drop, get_or, Bytes, be_bytes, from_be,
}
use ll_vpn.NodeId.{NodeId}
use ll_vpn.NodeId

abbrev pub default_heartbeat_interval_secs : ℕ
default_heartbeat_interval_secs = 5

abbrev pub default_offline_threshold : ℕ
default_offline_threshold = 3

-- `enum HeartbeatError`; its texts are left out.
pub data HeartbeatError : Type 0 where
  send_failed node_not_found timeout : HeartbeatError

-- `enum HeartbeatMsgType`
pub data HeartbeatMsgType : Type 0 where
  request response : HeartbeatMsgType

unfoldable pub type_from_u8 : ℕ → Option HeartbeatMsgType
type_from_u8 b = if b == 0x01 then some request else if b == 0x02 then some response else none

unfoldable pub type_to_u8 : HeartbeatMsgType → ℕ
type_to_u8 request = 0x01
type_to_u8 response = 0x02

-- `struct HeartbeatMessage`
pub record HeartbeatMessage : Type 0 where
  pub msg_type : HeartbeatMsgType
  pub sender_id : NodeId
  pub timestamp : ℕ
  pub sequence : ℕ

unfoldable pub to_bytes : HeartbeatMessage → Bytes
to_bytes m =
    type_to_u8 m.msg_type ∷ (m.sender_id.bytes ++ (be_bytes 8 m.timestamp ++ be_bytes 8 m.sequence))

-- What follows the type byte.
unfoldable pub after_type : HeartbeatMsgType → Bytes → HeartbeatMessage
after_type t rest = record {
  msg_type = t;
  sender_id = NodeId.from_bytes (take 32 rest);
  timestamp = from_be (take 8 (drop 32 rest));
  sequence = from_be (take 8 (drop 40 rest));
}

unfoldable pub from_bytes : Bytes → Option HeartbeatMessage
unfolding type_from_u8 after_type
from_bytes bytes =
    if ltb (length bytes) (1 + 32 + 8 + 8) then none else elim (type_from_u8 (get_or bytes 0 0)) [
      | none ↦ none
      | some t ↦ some (after_type t (drop 1 bytes))
    ]

-- `struct NodeHeartbeatState`
pub record NodeHeartbeatState : Type 0 where
  pub node_id : NodeId
  pub last_heartbeat : ℕ
  pub missed_count : ℕ
  pub is_online : Bool
  pub send_sequence : ℕ
  pub recv_sequence : ℕ

unfoldable pub new_state : ℕ → NodeId → NodeHeartbeatState
new_state now id = record {
  node_id = id;
  last_heartbeat = now;
  missed_count = 0;
  is_online = true;
  send_sequence = 0;
  recv_sequence = 0;
}

unfoldable pub should_be_offline : NodeHeartbeatState → ℕ → Bool
should_be_offline s threshold = leb threshold s.missed_count
