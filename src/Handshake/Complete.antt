-- ===== src/Handshake/Complete.antt =====
-- src/vpn/handshake.rs, `perform_handshake`, step by step.
use ll_vpn.Common.{ℕ, ◌+◌, ◌^◌, ◌≤◌, ◌<◌, ◌≡◌, ap, ◌∙◌, List, ◌∷◌, [], ok, some, Result, Bytes}
use ll_vpn.NodeId.{NodeId}
use ll_vpn.Handshake.{
  HandshakeError, HandshakePhase, HandshakePhase-discrete, hello, hello_ack, payload_data,
  hello_sent, hello_received, hello_ack_received, established, has_type, stamped, type_to_u8,
}
use ll_vpn.Handshake.Ends.{
  HandshakeInitiator, HandshakeResponder, KeyPair, perform_handshake, start_handshake, handle_hello,
  handle_hello_ack, handle_data, complete, new_initiator, new_responder, after_hello,
  after_hello_ack, after_ack, after_data,
}
use ll_vpn.Handshake.RoundTrip.{check_timestamp-fresh}

module _ {State : Type 0} (build_initiator : Bytes → Bytes → Result HandshakeError State)
    (build_responder : Bytes → Result HandshakeError State) (responder_key initiator_key : KeyPair)
    (answered checked_ack sent_data checked_data : ℕ) (initiator_id responder_id : NodeId)
    (i r : State) where
  -- The two ends after their first steps and after all.
  abbrev caller : HandshakePhase → List ℕ → HandshakeInitiator State
  caller phase used = record {
    node_id = initiator_id;
    remote_public_key = responder_key.1;
    noise_state = some i;
    phase = phase;
    used_timestamps = used;
  }

  abbrev answerer : HandshakePhase → List ℕ → HandshakeResponder State
  answerer phase used = record {
    node_id = responder_id;
    private_key = responder_key.0;
    noise_state = some r;
    phase = phase;
    used_timestamps = used;
  }

  starts :
      build_initiator initiator_key.0 responder_key.1 ≡ ok i
      → start_handshake
          (ok initiator_key)
          build_initiator
          (new_initiator initiator_id responder_key.1)
        ≡ (caller hello_sent [], ok (type_to_u8 hello ∷ initiator_key.1))
  unfolding start_handshake new_initiator
  starts built = rw (built, start_handshake)

  answers :
      build_responder responder_key.0 ≡ ok r
      → handle_hello build_responder answered
          (new_responder responder_id responder_key.0)
          (type_to_u8 hello ∷ initiator_key.1)
        ≡ (answerer hello_received [], ok (stamped hello_ack answered responder_id))
  unfolding handle_hello new_responder has_type type_to_u8 HandshakePhase-discrete
  answers built = rw built

  confirms :
      answered + 60 < 2 ^ 64
      → checked_ack ≤ answered + 60
      → handle_hello_ack checked_ack sent_data
          (caller hello_sent [])
          (stamped hello_ack answered responder_id)
        ≡ (
          caller hello_ack_received (answered ∷ []),
          ok (stamped payload_data sent_data initiator_id),
        )
  unfolding handle_hello_ack has_type stamped type_to_u8 HandshakePhase-discrete
  confirms small fresh =
      rw (check_timestamp-fresh checked_ack answered responder_id.bytes small fresh)

  settles :
      sent_data + 60 < 2 ^ 64
      → checked_data ≤ sent_data + 60
      → handle_data checked_data
          (answerer hello_received [])
          (stamped payload_data sent_data initiator_id)
        ≡ (answerer established (sent_data ∷ []), ok tt)
  unfolding handle_data has_type stamped type_to_u8 HandshakePhase-discrete
  settles small fresh =
      rw (check_timestamp-fresh checked_data sent_data initiator_id.bytes small fresh)

  -- Where snow makes its keys and its states, and no message is on its way for more than 60 seconds by
  -- the clocks, which are not near the end of the range of `u64`, the handshake ends with both ends
  -- established.
  pub perform_handshake-established :
      build_initiator initiator_key.0 responder_key.1 ≡ ok i
      → build_responder responder_key.0 ≡ ok r
      → answered + 60 < 2 ^ 64
      → checked_ack ≤ answered + 60
      → sent_data + 60 < 2 ^ 64
      → checked_data ≤ sent_data + 60
      → perform_handshake build_initiator build_responder answered checked_ack sent_data
          checked_data
          (ok responder_key)
          (ok initiator_key)
          initiator_id
          responder_id
        ≡ ok (established, established)
  unfolding perform_handshake complete HandshakePhase-discrete
  perform_handshake-established built_i built_r small1 fresh1 small2 fresh2 =
      ap
        (after_hello build_initiator build_responder answered checked_ack sent_data checked_data
          (new_responder responder_id responder_key.0))
        (starts built_i)
      ∙ ap
          (after_hello_ack build_initiator build_responder answered checked_ack sent_data
            checked_data (caller hello_sent []))
          (answers built_r)
      ∙ ap (after_ack checked_data (answerer hello_received [])) (confirms small1 fresh1)
      ∙ ap (after_data (caller hello_ack_received (answered ∷ []))) (settles small2 fresh2)
