-- ===== src/HolePunch/Outcome.antt =====
-- src/vpn/hole_punch.rs, `punch_hole`: its result and the two tables, for one call and for many.
use ll_vpn.Common.{
  ◌-◌, ◌⊎◌, All, true, length, take, drop, replicate, length-append, length-take, length-replicate,
  Bool-cases, Option-cases, Bytes, ℕ, ◌≡◌, ◌↔◌, refl, false, List, [], ◌∷◌, none, some, inl, inr,
  arith, Result, ok, err,
}
use ll_vpn.Common.HashMap
use ll_vpn.Common.HashMap.{HashMap, get-insert, get-remove}
use ll_vpn.NodeId.{NodeId, node_id_eq}
use ll_vpn.HolePunch.{
  Received, datagram, would_block, recv_failed, resized, is_valid_punch_response,
  all_attempts_failed, degraded_to_relay, NatType, LastError, no_response, success, PunchError,
  Attempt, HolePunchManager, bind_socket, set_nat_type, detect_nat_type, is_symmetric_nat, answer,
  error_after, attempts, conclude, register_punch, socket_or_new, punch_hole, remove_peer, clear,
}

length-resized : (bytes : Bytes) → length (resized bytes) ≡ 64
length-resized bytes = omega (
  arith,
  length-append (take 64 bytes) (replicate {A = ℕ} (64 - length bytes) 0),
  length-take 64 bytes,
  padded,
)
  where
    padded : length (replicate {A = ℕ} (64 - length bytes) 0) ≡ 64 - length bytes
    padded = length-replicate {A = ℕ} (64 - length bytes) 0

-- A packet in the buffer of 64 bytes that begins with "LLHP" and 28 bytes of the sender's id.
abbrev pub ComesFrom : NodeId → Bytes → Type 0
ComesFrom sender bytes =
    (take 4 (resized bytes) ≡ 76 ∷ 76 ∷ 72 ∷ 80 ∷ [])
    × (take 28 (drop 4 (resized bytes)) ≡ take 28 sender.bytes)

valid-ComesFrom :
    (sender : NodeId) (bytes : Bytes)
    → (is_valid_punch_response (resized bytes) sender ≡ true) ↔ ComesFrom sender bytes
unfolding is_valid_punch_response
valid-ComesFrom sender bytes = (
  λ valid. (ground (arith, valid), ground (arith, valid)),
  λ from. ground (arith, length-resized bytes, from.0, from.1),
)

module _ {Addr : Type 0} where
  -- What an attempt receives is a packet of the peer that came from the address.
  abbrev pub Answers : NodeId → Addr → Attempt Addr → Type 0
  Answers remote src a =
      (bytes : Bytes) × (a.received ≡ datagram bytes src) × ComesFrom remote bytes

  -- The address is that of the first answer.
  abbrev pub FirstAnswer : NodeId → Addr → List (Attempt Addr) → Type 0
  FirstAnswer remote src [] = ⊥
  FirstAnswer remote src (a ∷ rest) =
      Answers remote src a
      ⊎ (((other : Addr) → ¬ Answers remote other a) × FirstAnswer remote src rest)

  abbrev pub NoAnswer : NodeId → List (Attempt Addr) → Type 0
  NoAnswer remote tries = All (λ a. (src : Addr) → ¬ Answers remote src a) tries

  answer-ComesFrom :
      (remote : NodeId) (src : Addr) (r : Received Addr)
      → answer remote r ≡ some src
      → (bytes : Bytes) × (r ≡ datagram bytes src) × ComesFrom remote bytes
  unfolding answer
  answer-ComesFrom remote src (datagram bytes from) h =
      elim (Bool-cases (is_valid_punch_response (resized bytes) remote)) [
        | inl valid ↦ (bytes, ground (arith, h, valid), (valid-ComesFrom remote bytes).0 valid)
        | inr other ↦ absurd (ground (arith, h, other))
      ]
  answer-ComesFrom remote src would_block h = absurd (ground (arith, h))
  answer-ComesFrom remote src recv_failed h = absurd (ground (arith, h))

  no_answer :
      (remote : NodeId) (a : Attempt Addr) (src : Addr)
      → answer remote a.received ≡ none
      → ¬ Answers remote src a
  unfolding answer
  no_answer remote a src h (bytes, got, from) =
      ground (arith, rw got at h, (valid-ComesFrom remote bytes).1 from)

  -- How the loop ends.
  attempts_end :
      (remote : NodeId) (tries : List (Attempt Addr)) (last : LastError)
      → ((src : Addr) × FirstAnswer remote src tries × (attempts remote tries last ≡ ok src))
        ⊎ ((e : LastError) × NoAnswer remote tries × (attempts remote tries last ≡ err e))
  unfolding attempts
  attempts_end remote [] last = inr (last, tt, refl)
  attempts_end remote (a ∷ rest) last = elim (Option-cases (answer remote a.received)) [
    | inr (src, good) ↦
        inl (src, inl (answer-ComesFrom remote src a.received good), rw (attempts, good) refl)
    | inl none_here ↦
        let silent : (src : Addr) → ¬ Answers remote src a =
          λ src. no_answer remote a src none_here in
        elim (attempts_end remote rest (error_after a last)) [
          | inl (src, first, good) ↦ inl (src, inr (silent, first), rw (attempts, none_here) good)
          | inr (e, later, bad) ↦ inr (e, (silent, later), rw (attempts, none_here) bad)
        ]
  ]

  module _ (made : Result PunchError (Unit {0})) (a1 a2 a3 : Attempt Addr) (now : ℕ)
      (m : HolePunchManager Addr) (remote : NodeId) (addr : Addr) where
    -- Without a symmetric NAT, for a peer that is not reached yet and with a socket: either one of the
    -- three attempts receives a packet that begins with "LLHP" and 28 bytes of the peer's id, and then
    -- `punch_hole` succeeds and keeps the address of the first such packet for the peer; or none does,
    -- and then it degrades to the relay and keeps no address. No attempt stays registered for the peer.
    pub punch_hole_outcome :
        is_symmetric_nat m ≡ false
        → HashMap.get remote m.punched_peers ≡ none
        → socket_or_new made m ≡ ok tt
        → (HashMap.get remote (punch_hole made (a1, a2, a3) now m remote addr).0.active_punches
            ≡ none)
          × (((src : Addr) × FirstAnswer remote src (a1 ∷ a2 ∷ a3 ∷ [])
                × ((punch_hole made (a1, a2, a3) now m remote addr).1 ≡ ok success)
                × (HashMap.get remote
                      (punch_hole made (a1, a2, a3) now m remote addr).0.punched_peers
                    ≡ some src))
              ⊎ ((e : LastError) × NoAnswer remote (a1 ∷ a2 ∷ a3 ∷ [])
                  × ((punch_hole made (a1, a2, a3) now m remote addr).1
                      ≡ ok (degraded_to_relay (all_attempts_failed e)))
                  × ((punch_hole made (a1, a2, a3) now m remote addr).0.punched_peers
                      ≡ m.punched_peers)))
    unfolding punch_hole conclude register_punch
    punch_hole_outcome possible unknown ready =
        let registered = (register_punch now m remote addr).active_punches in
        let gone = get-remove remote remote registered in
        elim (attempts_end remote (a1 ∷ a2 ∷ a3 ∷ []) no_response) [
          | inl (src, first, good) ↦ (
            ground (arith, good, gone),
            inl (
              src,
              first,
              ground (arith, good),
              ground (arith, good, get-insert remote remote src m.punched_peers),
            ),
          )
          | inr (e, nowhere, bad) ↦ (
            ground (arith, bad, gone),
            inr (e, nowhere, ground (arith, bad), ground (arith, bad)),
          )
        ]

-- A call of the manager's interface that changes its state.
pub data Call (Addr : Type 0) : Type 0 where
  punch :
      Result PunchError (Unit {0})
      → Attempt Addr × Attempt Addr × Attempt Addr
      → ℕ
      → NodeId
      → Addr
      → Call Addr
  choose_nat : NatType → Call Addr
  detect bind clear_all : Call Addr
  drop_peer : NodeId → Call Addr

module _ {Addr : Type 0} where
  unfoldable pub step : HolePunchManager Addr → Call Addr → HolePunchManager Addr
  step m (punch made tries now remote addr) = (punch_hole made tries now m remote addr).0
  step m (choose_nat t) = set_nat_type m t
  step m detect = (detect_nat_type m).0
  step m bind = bind_socket m
  step m clear_all = clear m
  step m (drop_peer peer) = remove_peer m peer

  unfoldable pub run : HolePunchManager Addr → List (Call Addr) → HolePunchManager Addr
  run m [] = m
  run m (c ∷ calls) = run (step m c) calls

  conclude-idle :
      (now : ℕ) (m : HolePunchManager Addr) (remote : NodeId) (addr : Addr)
      (r : Result LastError Addr)
      → m.active_punches ≡ []
      → (conclude (register_punch now m remote addr) remote r).0.active_punches ≡ []
  unfolding conclude register_punch HashMap.insert HashMap.remove
  conclude-idle now m remote addr (ok src) idle = rw idle (ground arith)
  conclude-idle now m remote addr (err e) idle = rw idle (ground arith)

  punch_hole-idle :
      (made : Result PunchError (Unit {0})) (tries : Attempt Addr × Attempt Addr × Attempt Addr)
      (now : ℕ) (m : HolePunchManager Addr) (remote : NodeId) (addr : Addr)
      → m.active_punches ≡ []
      → (punch_hole made tries now m remote addr).0.active_punches ≡ []
  unfolding punch_hole
  punch_hole-idle made (a1, a2, a3) now m remote addr idle =
      let r = attempts remote (a1 ∷ a2 ∷ a3 ∷ []) no_response in
      ground (arith, conclude-idle now m remote addr r idle)

  step-idle :
      (m : HolePunchManager Addr) (c : Call Addr)
      → m.active_punches ≡ []
      → (step m c).active_punches ≡ []
  unfolding step set_nat_type detect_nat_type bind_socket clear remove_peer HashMap.remove
  step-idle m (punch made tries now remote addr) idle =
      punch_hole-idle made tries now m remote addr idle
  step-idle m (choose_nat t) idle = idle
  step-idle m detect idle = idle
  step-idle m bind idle = idle
  step-idle m clear_all idle = refl
  step-idle m (drop_peer peer) idle = rw idle

  -- If no attempt is registered, none is so after any calls that follow each other, whichever way the
  -- calls of `punch_hole` end.
  pub run_idle :
      (m : HolePunchManager Addr) (calls : List (Call Addr))
      → m.active_punches ≡ []
      → (run m calls).active_punches ≡ []
  unfolding run
  run_idle m [] idle = idle
  run_idle m (c ∷ calls) idle = run_idle (step m c) calls (step-idle m c idle)
