-- ===== src/Handshake.antt =====
-- src/vpn/handshake.rs: the messages and the phases of a handshake. The crate snow is not modelled: the
-- state that it builds is of an arbitrary type, and what its functions return are arguments, as is each
-- reading of the clock, in Unix seconds. A method with `&mut self` returns the state that it leaves.
pub mod Ends
pub mod RoundTrip
pub mod Accept
pub mod Complete
pub mod Replay
mod Tests
use ll_vpn.Common.{
  ℕ, ◌+◌, Bool, true, false, List, [], ◌∷◌, ◌++◌, Option, none, some, ltb, ◌==◌, if◌then◌else◌,
  length, take, drop, Result, ok, err, Bytes, be_bytes, from_be,
}
use ll_vpn.NodeId.{NodeId}
use ll_vpn.Session.{u64}

abbrev pub replay_window_secs : ℕ
replay_window_secs = 60

-- What the text of an `InvalidState` or an `InvalidData` says.
pub data Fault : Type 0 where
  expected_init expected_hello_sent expected_hello_received not_completed : Fault
  invalid_hello invalid_hello_ack invalid_data_message : Fault

-- `enum HandshakeError`; what snow says is left out.
pub data HandshakeError : Type 0 where
  snow_error : HandshakeError
  invalid_state : Fault → HandshakeError
  replay_detected : ℕ → HandshakeError
  timestamp_expired : ℕ → ℕ → HandshakeError
  invalid_data : Fault → HandshakeError

-- `enum HandshakeMsgType`
pub data HandshakeMsgType : Type 0 where
  hello hello_ack payload_data : HandshakeMsgType

unfoldable pub type_from_u8 : ℕ → Option HandshakeMsgType
type_from_u8 b =
    if b == 0x01
    then some hello
    else if b == 0x02
    then some hello_ack
    else if b == 0x03
    then some payload_data
    else none

unfoldable pub type_to_u8 : HandshakeMsgType → ℕ
type_to_u8 hello = 0x01
type_to_u8 hello_ack = 0x02
type_to_u8 payload_data = 0x03

-- `enum HandshakePhase`
pub data HandshakePhase : Type 0 where
  init hello_sent hello_received hello_ack_received established failed : HandshakePhase

unfoldable pub HandshakePhase-discrete : Discrete HandshakePhase
HandshakePhase-discrete = hlevel

-- `struct TimestampedPayload`
pub record TimestampedPayload : Type 0 where
  pub timestamp : ℕ
  pub payload : Bytes

unfoldable pub new_payload : ℕ → Bytes → TimestampedPayload
new_payload now payload = record { timestamp = now; payload = payload }

unfoldable pub to_bytes : TimestampedPayload → Bytes
to_bytes p = be_bytes 8 p.timestamp ++ p.payload

unfoldable pub from_bytes : Bytes → Option TimestampedPayload
from_bytes bytes =
    if ltb (length bytes) 8
    then none
    else some (record { timestamp = from_be (take 8 bytes); payload = drop 8 bytes })

-- The sum is one of `u64`.
unfoldable pub validate : ℕ → TimestampedPayload → Result HandshakeError (Unit {0})
validate now p =
    if ltb (u64 (p.timestamp + replay_window_secs)) now
    then err (timestamp_expired p.timestamp now)
    else ok tt

-- `Vec::contains`
unfoldable pub contains : List ℕ → ℕ → Bool
contains [] t = false
contains (u ∷ used) t = let rest = contains used t in if u == t then true else rest

unfoldable pub check_replay : List ℕ → ℕ → Result HandshakeError (Unit {0})
unfolding contains
check_replay used t = if contains used t then err (replay_detected t) else ok tt

-- The check of the timestamp that `handle_hello_ack` and `handle_data` share: bytes that are too few to
-- hold one are let pass. What it returns is the list of used timestamps.
unfoldable pub checked : ℕ → List ℕ → TimestampedPayload → Result HandshakeError (List ℕ)
unfolding validate check_replay
checked now used p = elim (validate now p) [
  | err e ↦ err e
  | ok _ ↦ elim (check_replay used p.timestamp) [
    | err e ↦ err e
    | ok _ ↦ ok (used ++ (p.timestamp ∷ []))
  ]
]

unfoldable pub check_timestamp : ℕ → List ℕ → Bytes → Result HandshakeError (List ℕ)
unfolding checked
check_timestamp now used bytes = elim (from_bytes bytes) [
  | none ↦ ok used
  | some p ↦ checked now used p
]

-- `msg.len() < 1 || msg[0] != t.to_u8()` is false.
unfoldable pub has_type : HandshakeMsgType → Bytes → Bool
has_type t [] = false
has_type t (b ∷ bytes) = b == type_to_u8 t

-- A type byte with this node's id under a timestamp.
unfoldable pub stamped : HandshakeMsgType → ℕ → NodeId → Bytes
unfolding new_payload
stamped t now id = type_to_u8 t ∷ to_bytes (new_payload now id.bytes)
