-- ===== src/Handshake/Replay.antt =====
-- src/vpn/handshake.rs, the check for replays in any run of either end.
use ll_vpn.Common.{
  ℕ, ◌≡◌, ◌≢◌, refl, false, List, [], ◌∷◌, ◌++◌, inl, inr, ok, err, arith, drop, Result, Bytes,
  Option-cases, Result-cases, ◌⊎◌,
}
use ll_vpn.NodeId.{NodeId}
use ll_vpn.Handshake.{
  HandshakeError, replay_detected, established, from_bytes, validate, contains, check_replay,
  checked, check_timestamp,
}
use ll_vpn.Handshake.Ends.{
  HandshakeInitiator, HandshakeResponder, KeyPair, start_handshake, handle_hello, handle_hello_ack,
  handle_data, complete, new_responder,
}

-- No timestamp stands twice in a list.
abbrev pub Unique : List ℕ → Type 0
Unique [] = Unit {0}
Unique (t ∷ ts) = (contains ts t ≡ false) × Unique ts

contains-append_one :
    (ts : List ℕ) (t u : ℕ) → contains ts u ≡ false → t ≢ u → contains (ts ++ (t ∷ [])) u ≡ false
unfolding contains
contains-append_one [] t u h other = ground arith
contains-append_one (x ∷ ts) t u h other = ground (arith, contains-append_one ts t u)

Unique-append_one :
    (ts : List ℕ) (t : ℕ) → Unique ts → contains ts t ≡ false → Unique (ts ++ (t ∷ []))
unfolding contains
Unique-append_one [] t d h = (refl, tt)
Unique-append_one (x ∷ ts) t d h =
    ground (arith, Unique-append_one ts t d.1, contains-append_one ts t x d.0)

-- An accepted timestamp is new to the list.
check_timestamp-Unique :
    (now : ℕ) (used u : List ℕ) (bytes : Bytes)
    → check_timestamp now used bytes ≡ ok u
    → Unique used
    → Unique u
unfolding check_timestamp checked validate check_replay
check_timestamp-Unique now used u bytes h d = elim (Option-cases (from_bytes bytes)) [
  | inl e ↦ ground arith
  | inr (p, e) ↦ ground (arith, Unique-append_one used p.timestamp d)
]

-- What may happen to the initiator, with what snow and the clock return.
pub data Act (State : Type 0) : Type 0 where
  begin : Result HandshakeError KeyPair → (Bytes → Bytes → Result HandshakeError State) → Act State
  receive : ℕ → ℕ → Bytes → Act State
  finish : Act State

-- What may happen to the responder: a `Hello` or a `Data` message.
pub data Input (State : Type 0) : Type 0 where
  hello_in : (Bytes → Result HandshakeError State) → ℕ → Bytes → Input State
  data_in : ℕ → Bytes → Input State

module _ {State : Type 0} where
  unfoldable pub initiator_step : HandshakeInitiator State → Act State → HandshakeInitiator State
  initiator_step i (begin keys build) = (start_handshake keys build i).0
  initiator_step i (receive now later msg) = (handle_hello_ack now later i msg).0
  initiator_step i finish = (complete i).0

  unfoldable pub initiator_run :
      HandshakeInitiator State → List (Act State) → HandshakeInitiator State
  initiator_run i [] = i
  initiator_run i (a ∷ acts) = initiator_run (initiator_step i a) acts

  initiator_step-Unique :
      (i : HandshakeInitiator State) (a : Act State)
      → Unique i.used_timestamps
      → Unique (initiator_step i a).used_timestamps
  unfolding initiator_step start_handshake handle_hello_ack complete
  initiator_step-Unique i (begin keys build) d = ground arith
  initiator_step-Unique i (receive now later msg) d =
      elim (Result-cases (check_timestamp now i.used_timestamps (drop 1 msg))) [
        | inl (e, bad) ↦ ground arith
        | inr (u, good) ↦
            ground (arith, check_timestamp-Unique now i.used_timestamps u (drop 1 msg) good d)
      ]
  initiator_step-Unique i finish d = ground arith

  -- If none stands twice in an initiator's list of accepted timestamps, none does so whatever it
  -- receives and as often as it starts again.
  pub initiator_run-Unique :
      (i : HandshakeInitiator State) (acts : List (Act State))
      → Unique i.used_timestamps
      → Unique (initiator_run i acts).used_timestamps
  unfolding initiator_run
  initiator_run-Unique i [] d = d
  initiator_run-Unique i (a ∷ acts) d =
      initiator_run-Unique (initiator_step i a) acts (initiator_step-Unique i a d)

  unfoldable pub responder_step : HandshakeResponder State → Input State → HandshakeResponder State
  responder_step r (hello_in build now msg) = (handle_hello build now r msg).0
  responder_step r (data_in now msg) = (handle_data now r msg).0

  unfoldable pub responder_run :
      HandshakeResponder State → List (Input State) → HandshakeResponder State
  responder_run r [] = r
  responder_run r (a ∷ acts) = responder_run (responder_step r a) acts

  -- Until it is established, a responder has used no timestamp.
  abbrev pub Unused : HandshakeResponder State → Type 0
  Unused r = (r.used_timestamps ≡ []) ⊎ (r.phase ≡ established)

  responder_step-Unused :
      (r : HandshakeResponder State) (a : Input State) → Unused r → Unused (responder_step r a)
  unfolding responder_step handle_hello handle_data
  responder_step-Unused r (hello_in build now msg) h = ground arith
  responder_step-Unused r (data_in now msg) h = ground arith

  responder_run-Unused :
      (r : HandshakeResponder State) (acts : List (Input State))
      → Unused r
      → Unused (responder_run r acts)
  unfolding responder_run
  responder_run-Unused r [] h = h
  responder_run-Unused r (a ∷ acts) h =
      responder_run-Unused (responder_step r a) acts (responder_step-Unused r a h)

  -- After any messages, a new responder answers no message as a `Data` message with `ReplayDetected`.
  pub responder_never_replay :
      (id : NodeId) (key : Bytes) (acts : List (Input State)) (now t : ℕ) (msg : Bytes)
      → (handle_data now (responder_run (new_responder id key) acts) msg).1
        ≢ err (replay_detected t)
  unfolding handle_data check_timestamp checked validate check_replay contains new_responder
  responder_never_replay id key acts now t msg e =
      let r = responder_run (new_responder id key) acts in
      let fresh : Unused r = responder_run-Unused (new_responder id key) acts (inl refl) in
      ground arith
