-- ===== src/Frame/Tests.antt =====
-- src/vpn/relay.rs: runs of the framing on small messages.
use ll_vpn.Common.{◌≡◌, refl, true, [], ◌∷◌, ◌++◌, ok, arith, Bytes, be_bytes, from_be, replicate}
use ll_vpn.NodeId.{filled}
use ll_vpn.Frame.{
  Message, heartbeat, payload_data, to_bytes, from_bytes, parse_payload, type_from_u8, type_to_u8,
  unexpected_eof,
}
use ll_vpn.Frame.RoundTrip.{from_bytes-to_bytes}
use ll_vpn.Frame.Stream.{handle_connection, frames, remaining, handle_connection-frames}

abbrev beat : Message
beat = record { msg_type = heartbeat; payload = 7 ∷ 8 ∷ [] }

abbrev note : Message
note = record { msg_type = payload_data; payload = b'a' ∷ [] }

abbrev beat_frame : Bytes
beat_frame = 0 ∷ 0 ∷ 0 ∷ 2 ∷ 4 ∷ 7 ∷ 8 ∷ 99 ∷ []

to_bytes_test : to_bytes beat ++ (99 ∷ []) ≡ beat_frame
unfolding to_bytes type_to_u8 be_bytes
to_bytes_test = refl

from_bytes_test : from_bytes beat_frame ≡ ok beat
unfolding from_bytes type_from_u8 parse_payload from_be
from_bytes_test = refl

from_bytes-to_bytes_example : from_bytes (to_bytes beat ++ (99 ∷ [])) ≡ ok beat
from_bytes-to_bytes_example = from_bytes-to_bytes beat (99 ∷ []) (omega arith)

handle_connection-frames_example :
    handle_connection (replicate 3 true) (remaining (frames (beat ∷ note ∷ [])) unexpected_eof) []
    ≡ (filled 0, beat) ∷ (filled 0, note) ∷ []
handle_connection-frames_example =
    handle_connection-frames (beat ∷ note ∷ []) [] unexpected_eof (omega arith, (omega arith, tt))
