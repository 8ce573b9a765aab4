-- ===== src/Handshake/Tests.antt =====
-- src/vpn/handshake.rs: runs of both ends with small keys.
use ll_vpn.Common.{
  ◌≡◌, ◌≢◌, ◌↔◌, refl, true, [], ◌∷◌, ◌++◌, none, some, ok, arith, Result, Bytes, from_be,
}
use ll_vpn.NodeId.{filled}
use ll_vpn.Handshake.{
  HandshakeError, hello_received, hello_sent, established, TimestampedPayload, from_bytes,
  payload_data, has_type,
}
use ll_vpn.Handshake.Ends.{HandshakeInitiator, HandshakeResponder, handle_data, perform_handshake}
use ll_vpn.Handshake.Accept.{passes, handle_data_iff}
use ll_vpn.Handshake.Complete.{perform_handshake-established}

abbrev stamp : TimestampedPayload
stamp = record { timestamp = 258; payload = 7 ∷ [] }

abbrev stamp_bytes : Bytes
stamp_bytes = 0 ∷ 0 ∷ 0 ∷ 0 ∷ 0 ∷ 0 ∷ 1 ∷ 2 ∷ 7 ∷ []

stamp_read : from_bytes stamp_bytes ≡ some stamp
unfolding from_bytes from_be
stamp_read = refl

-- Keys stand in for the states that snow makes of them.
abbrev waiting : HandshakeResponder Bytes
waiting = record {
  node_id = filled 2;
  private_key = 5 ∷ [];
  noise_state = some [];
  phase = hello_received;
  used_timestamps = [];
}

handle_data_iff_example :
    (((handle_data 300 waiting (3 ∷ stamp_bytes)).1 ≡ ok tt) ↔ (
      (hello_received ≡ hello_received)
      × (has_type payload_data (3 ∷ stamp_bytes) ≡ true)
      × (passes 300 [] stamp_bytes ≡ true)))
    × (((handle_data 300 waiting (3 ∷ stamp_bytes)).1 ≡ ok tt)
        → (handle_data 300 waiting (3 ∷ stamp_bytes)).0.phase ≡ established)
    × (((handle_data 300 waiting (3 ∷ stamp_bytes)).1 ≢ ok tt)
        → (handle_data 300 waiting (3 ∷ stamp_bytes)).0 ≡ waiting)
handle_data_iff_example = handle_data_iff 300 waiting (3 ∷ stamp_bytes)

abbrev build_initiator : Bytes → Bytes → Result HandshakeError Bytes
build_initiator own remote = ok (own ++ remote)

abbrev build_responder : Bytes → Result HandshakeError Bytes
build_responder own = ok own

perform_handshake-established_example :
    perform_handshake build_initiator build_responder 100 101 102 103
      (ok (1 ∷ [], 2 ∷ []))
      (ok (3 ∷ [], 4 ∷ []))
      (filled 1)
      (filled 2)
    ≡ ok (established, established)
perform_handshake-established_example =
    perform_handshake-established build_initiator build_responder (1 ∷ [], 2 ∷ []) (3 ∷ [], 4 ∷ [])
      100 101 102 103 (filled 1) (filled 2) (3 ∷ 2 ∷ []) (1 ∷ []) refl refl (omega arith)
      (omega arith) (omega arith) (omega arith)

abbrev calling : HandshakeInitiator Bytes
calling = record {
  node_id = filled 1;
  remote_public_key = [];
  noise_state = none;
  phase = hello_sent;
  used_timestamps = [];
}
