-- ===== src/Frame.antt =====
-- src/vpn/relay.rs, the message frames: a length of 4 bytes, a type byte, and the payload.
-- `format!` texts of errors are kept as data: `ParseFault` has a constructor for each text.
pub mod RoundTrip
pub mod Stream
mod Tests
use ll_vpn.Common.{
  ℕ, ◌+◌, ◌%◌, ◌^◌, [], ◌∷◌, ◌++◌, Option, none, some, ltb, ◌==◌, if◌then◌else◌, length, take, drop,
  get_or, Result, ok, err, Bytes, be_bytes, from_be, Option-cases,
}
use ll_vpn.NodeId.{NodeId}

-- `enum MessageType`
pub data MessageType : Type 0 where
  handshake payload_data ack heartbeat relay registry dht route self_heal : MessageType

unfoldable pub type_from_u8 : ℕ → Option MessageType
type_from_u8 b =
    if b == 0x01
    then some handshake
    else if b == 0x02
    then some payload_data
    else if b == 0x03
    then some ack
    else if b == 0x04
    then some heartbeat
    else if b == 0x05
    then some relay
    else if b == 0x06
    then some registry
    else if b == 0x07
    then some dht
    else if b == 0x08
    then some route
    else if b == 0x09
    then some self_heal
    else none

unfoldable pub type_to_u8 : MessageType → ℕ
type_to_u8 handshake = 0x01
type_to_u8 payload_data = 0x02
type_to_u8 ack = 0x03
type_to_u8 heartbeat = 0x04
type_to_u8 relay = 0x05
type_to_u8 registry = 0x06
type_to_u8 dht = 0x07
type_to_u8 route = 0x08
type_to_u8 self_heal = 0x09

-- What the text of a `ParseError` says.
pub data ParseFault : Type 0 where
  message_too_short : ParseFault
  invalid_message_type : ℕ → ParseFault
  payload_too_short : ℕ → ParseFault
  message_too_large : ParseFault

-- `std::io::ErrorKind`, as far as the code tells kinds apart.
pub data IoKind : Type 0 where
  unexpected_eof would_block other_kind : IoKind

-- `enum RelayError`
pub data RelayError : Type 0 where
  io_error : IoKind → RelayError
  connection_error : RelayError
  parse_error : ParseFault → RelayError
  pool_full : RelayError
  unreachable : NodeId → RelayError
  timeout : RelayError

-- `struct Message`
pub record Message : Type 0 where
  pub msg_type : MessageType
  pub payload : Bytes

-- `len() as u32` drops the bits above the 32nd.
unfoldable pub to_bytes : Message → Bytes
to_bytes m = be_bytes 4 (length m.payload % 2 ^ 32) ++ (type_to_u8 m.msg_type ∷ m.payload)

-- The three checks of `from_bytes`, in the code's order.
parse_payload : Bytes → ℕ → MessageType → Result RelayError Message
parse_payload bytes len t =
    if ltb (length bytes) (5 + len)
    then err (parse_error (payload_too_short len))
    else ok (record { msg_type = t; payload = take len (drop 5 bytes) })

unfoldable pub from_bytes : Bytes → Result RelayError Message
unfolding parse_payload
from_bytes bytes =
    if ltb (length bytes) 5
    then err (parse_error message_too_short)
    else elim (type_from_u8 (get_or bytes 4 0)) [
      | none ↦ err (parse_error (invalid_message_type (get_or bytes 4 0)))
      | some t ↦ parse_payload bytes (from_be (take 4 bytes)) t
    ]
