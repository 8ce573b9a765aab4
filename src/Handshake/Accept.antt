-- ===== src/Handshake/Accept.antt =====
-- src/vpn/handshake.rs, `handle_data`: the messages that it accepts.
use ll_vpn.Common.{
  ℕ, ◌+◌, ◌<◌, ◌≡◌, ◌≢◌, ◌↔◌, Bool, true, false, List, ◌∷◌, none, some, ok, err, arith, drop, Bytes,
  length, leb, not, ◌&&◌,
}
use ll_vpn.Session.{u64}
use ll_vpn.Handshake.{
  hello_received, established, from_bytes, validate, contains, check_replay, checked,
  check_timestamp, payload_data, has_type, type_to_u8,
}
use ll_vpn.Handshake.Ends.{HandshakeResponder, handle_data}

-- A message that is let pass: its timestamp is at most 60 seconds old when it is checked, in the
-- arithmetic of `u64`, and was not used before; or it is too short to have one.
abbrev pub passes : ℕ → List ℕ → Bytes → Bool
passes now used bytes = elim (from_bytes bytes) [
  | none ↦ true
  | some p ↦ leb now (u64 (p.timestamp + 60)) && not (contains used p.timestamp)
]

check_timestamp-passes :
    (now : ℕ) (used : List ℕ) (bytes : Bytes)
    → (elim (check_timestamp now used bytes) [ err _ ↦ false | ok _ ↦ true ])
      ≡ passes now used bytes
unfolding check_timestamp checked validate check_replay
check_timestamp-passes now used bytes = ground arith

module _ {State : Type 0} (now : ℕ) where
  -- The responder accepts a `Data` message exactly when it has received a `Hello` and no `Data` yet, the
  -- type byte is right, and the message passes; then it is established, and otherwise it is as it was.
  pub handle_data_iff :
      (r : HandshakeResponder State) (msg : Bytes)
      → (((handle_data now r msg).1 ≡ ok tt) ↔ (
          (r.phase ≡ hello_received)
          × (has_type payload_data msg ≡ true)
          × (passes now r.used_timestamps (drop 1 msg) ≡ true)))
        × (((handle_data now r msg).1 ≡ ok tt) → (handle_data now r msg).0.phase ≡ established)
        × (((handle_data now r msg).1 ≢ ok tt) → (handle_data now r msg).0 ≡ r)
  unfolding handle_data
  handle_data_iff r msg =
      let same = check_timestamp-passes now r.used_timestamps (drop 1 msg) in
      (
        (λ h. ground (arith, same), λ h. ground (arith, same, h)),
        λ h. ground arith,
        λ h. ground arith,
      )

  -- A `Data` message with fewer than 8 bytes behind its type byte makes a responder that has received
  -- a `Hello` established at any time, without a timestamp.
  pub handle_data_unstamped :
      (r : HandshakeResponder State) (bytes : Bytes)
      → r.phase ≡ hello_received
      → length bytes < 8
      → handle_data now r (type_to_u8 payload_data ∷ bytes)
        ≡ (record r { phase = established }, ok tt)
  unfolding handle_data has_type check_timestamp from_bytes type_to_u8
  handle_data_unstamped r bytes waiting short = ground arith
