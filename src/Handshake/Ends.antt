-- ===== src/Handshake/Ends.antt =====
-- src/vpn/handshake.rs, `HandshakeInitiator`, `HandshakeResponder` and `perform_handshake`.
use ll_vpn.Common.{
  ℕ, List, [], ◌∷◌, Option, none, some, if◌then◌else◌, ite, drop, Result, ok, err, Bytes,
}
use ll_vpn.NodeId.{NodeId}
use ll_vpn.Handshake.{
  HandshakeError, HandshakePhase, HandshakePhase-discrete, check_timestamp, established,
  expected_hello_received, expected_hello_sent, expected_init, has_type, hello, hello_ack,
  hello_ack_received, hello_received, hello_sent, init, invalid_data, invalid_data_message,
  invalid_hello, invalid_hello_ack, invalid_state, not_completed, payload_data, stamped, type_to_u8,
}

abbrev pub KeyPair : Type 0
KeyPair = Bytes × Bytes

module _ (State : Type 0) where
  -- `struct HandshakeInitiator`
  pub record HandshakeInitiator : Type 0 where
    pub node_id : NodeId
    pub remote_public_key : Bytes
    pub noise_state : Option State
    pub phase : HandshakePhase
    pub used_timestamps : List ℕ

  -- `struct HandshakeResponder`
  pub record HandshakeResponder : Type 0 where
    pub node_id : NodeId
    pub private_key : Bytes
    pub noise_state : Option State
    pub phase : HandshakePhase
    pub used_timestamps : List ℕ

module _ {State : Type 0} where
  unfoldable pub new_initiator : NodeId → Bytes → HandshakeInitiator State
  new_initiator id key = record {
    node_id = id;
    remote_public_key = key;
    noise_state = none;
    phase = init;
    used_timestamps = [];
  }

  unfoldable pub new_responder : NodeId → Bytes → HandshakeResponder State
  new_responder id key = record {
    node_id = id;
    private_key = key;
    noise_state = none;
    phase = init;
    used_timestamps = [];
  }

  -- The pair holds the private key and the public one.
  unfoldable pub start_handshake :
      Result HandshakeError KeyPair
      → (Bytes → Bytes → Result HandshakeError State)
      → HandshakeInitiator State
      → HandshakeInitiator State × Result HandshakeError Bytes
  start_handshake keypair build_initiator i = elim keypair [
    | err e ↦ (i, err e)
    | ok local_key ↦ elim (build_initiator local_key.0 i.remote_public_key) [
      | err e ↦ (i, err e)
      | ok state ↦ (
        record i { noise_state = some state; phase = hello_sent },
        ok (type_to_u8 hello ∷ local_key.1),
      )
    ]
  ]

  -- `later` is the time of the answer.
  unfoldable pub handle_hello_ack :
      ℕ
      → ℕ
      → HandshakeInitiator State
      → Bytes
      → HandshakeInitiator State × Result HandshakeError Bytes
  unfolding HandshakePhase-discrete stamped
  handle_hello_ack now later i msg =
      ite (HandshakePhase-discrete i.phase hello_sent)
        (if has_type hello_ack msg
          then (elim (check_timestamp now i.used_timestamps (drop 1 msg)) [
            | err e ↦ (i, err e)
            | ok used ↦ (
              record i { used_timestamps = used; phase = hello_ack_received },
              ok (stamped payload_data later i.node_id),
            )
          ])
          else (i, err (invalid_data invalid_hello_ack)))
        (i, err (invalid_state expected_hello_sent))

  unfoldable pub complete :
      HandshakeInitiator State → HandshakeInitiator State × Result HandshakeError (Unit {0})
  unfolding HandshakePhase-discrete
  complete i =
      ite (HandshakePhase-discrete i.phase hello_ack_received)
        (record i { phase = established }, ok tt) (i, err (invalid_state not_completed))

  unfoldable pub handle_hello :
      (Bytes → Result HandshakeError State)
      → ℕ
      → HandshakeResponder State
      → Bytes
      → HandshakeResponder State × Result HandshakeError Bytes
  unfolding HandshakePhase-discrete stamped
  handle_hello build_responder now r msg =
      ite (HandshakePhase-discrete r.phase init)
        (if has_type hello msg
          then (elim (build_responder r.private_key) [
            | err e ↦ (r, err e)
            | ok state ↦ (
              record r { noise_state = some state; phase = hello_received },
              ok (stamped hello_ack now r.node_id),
            )
          ])
          else (r, err (invalid_data invalid_hello)))
        (r, err (invalid_state expected_init))

  unfoldable pub handle_data :
      ℕ
      → HandshakeResponder State
      → Bytes
      → HandshakeResponder State × Result HandshakeError (Unit {0})
  unfolding HandshakePhase-discrete
  handle_data now r msg =
      ite (HandshakePhase-discrete r.phase hello_received)
        (if has_type payload_data msg
          then (elim (check_timestamp now r.used_timestamps (drop 1 msg)) [
            | err e ↦ (r, err e)
            | ok used ↦ (record r { used_timestamps = used; phase = established }, ok tt)
          ])
          else (r, err (invalid_data invalid_data_message)))
        (r, err (invalid_state expected_hello_received))

-- `?` on a result.
abbrev pub and_then :
    {A B : Type 0}
    → Result HandshakeError A
    → (A → Result HandshakeError B)
    → Result HandshakeError B
and_then (ok a) f = f a
and_then (err e) f = err e

-- The whole handshake in one process, a definition for what follows each message. The clock is read four
-- times. The `assert_eq!` lines test what the functions have just set, and are left out.
abbrev pub Outcome : Type 0
Outcome = Result HandshakeError (HandshakePhase × HandshakePhase)

module _ {State : Type 0} where
  abbrev pub after_data :
      HandshakeInitiator State
      → HandshakeResponder State × Result HandshakeError (Unit {0})
      → Outcome
  after_data i (r, done) =
      and_then done
        (λ _. let (i', completed) = complete i in and_then completed (λ _. ok (i'.phase, r.phase)))

  abbrev pub after_ack :
      ℕ
      → HandshakeResponder State
      → HandshakeInitiator State × Result HandshakeError Bytes
      → Outcome
  after_ack checked_data r (i, data_msg) =
      and_then data_msg (λ msg. after_data i (handle_data checked_data r msg))

module _ {State : Type 0} (build_initiator : Bytes → Bytes → Result HandshakeError State)
    (build_responder : Bytes → Result HandshakeError State)
    (answered checked_ack sent_data checked_data : ℕ) where
  abbrev pub after_hello_ack :
      HandshakeInitiator State → HandshakeResponder State × Result HandshakeError Bytes → Outcome
  after_hello_ack i (r, hello_ack_msg) =
      and_then hello_ack_msg
        (λ msg. after_ack checked_data r (handle_hello_ack checked_ack sent_data i msg))

  abbrev pub after_hello :
      HandshakeResponder State → HandshakeInitiator State × Result HandshakeError Bytes → Outcome
  after_hello r (i, hello_msg) =
      and_then hello_msg (λ msg. after_hello_ack i (handle_hello build_responder answered r msg))

  unfoldable pub perform_handshake :
      Result HandshakeError KeyPair → Result HandshakeError KeyPair → NodeId → NodeId → Outcome
  perform_handshake responder_keys initiator_keys initiator_id responder_id =
      and_then responder_keys (λ key.
        after_hello (new_responder responder_id key.0)
          (start_handshake initiator_keys build_initiator (new_initiator initiator_id key.1)))
