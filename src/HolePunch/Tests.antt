-- ===== src/HolePunch/Tests.antt =====
-- src/vpn/hole_punch.rs: runs with numbers for addresses.
use ll_vpn.Common.{ℕ, ◌<◌, ◌≡◌, ◌⊎◌, some, refl, true, false, [], ◌∷◌, none, arith, ok}
use ll_vpn.Common.HashMap
use ll_vpn.NodeId.{node_id_eq, IsNodeId, filled}
use ll_vpn.HolePunch.{
  HolePunchManager, Attempt, LastError, degraded_to_relay, all_attempts_failed, success, cone,
  datagram, would_block, build_punch_packet, is_symmetric_nat, socket_or_new, punch_hole,
}
use ll_vpn.HolePunch.Outcome.{FirstAnswer, NoAnswer, punch_hole_outcome}

filled-IsNodeId : (b : ℕ) → b < 256 → IsNodeId (filled b)
filled-IsNodeId b h = record { size = refl; in_range = ground arith }

abbrev manager : HolePunchManager ℕ
manager = record {
  local_id = filled 2;
  nat_type = cone;
  active_punches = [];
  punched_peers = [];
  socket = true;
}

abbrev silent : Attempt ℕ
silent = record { sent = true; received = would_block }

abbrev answered : Attempt ℕ
answered = record { sent = true; received = datagram (build_punch_packet (filled 1) (filled 2)) 7 }

not_symmetric : is_symmetric_nat manager ≡ false
unfolding is_symmetric_nat
not_symmetric = refl

not_reached : HashMap.get (filled 1) manager.punched_peers ≡ none
unfolding HashMap.get
not_reached = refl

has_socket : socket_or_new (ok tt) manager ≡ ok tt
unfolding socket_or_new
has_socket = refl

punch_hole_outcome_example :
    (HashMap.get
        (filled 1)
        (punch_hole (ok tt) (silent, answered, silent) 0 manager (filled 1) 7).0.active_punches
      ≡ none)
    × (((src : ℕ) × FirstAnswer (filled 1) src (silent ∷ answered ∷ silent ∷ [])
          × ((punch_hole (ok tt) (silent, answered, silent) 0 manager (filled 1) 7).1 ≡ ok success)
          × (HashMap.get
                (filled 1)
                (punch_hole
                  (ok tt)
                  (silent, answered, silent)
                  0
                  manager
                  (filled 1)
                  7).0.punched_peers
              ≡ some src))
        ⊎ ((e : LastError) × NoAnswer (filled 1) (silent ∷ answered ∷ silent ∷ [])
            × ((punch_hole (ok tt) (silent, answered, silent) 0 manager (filled 1) 7).1
                ≡ ok (degraded_to_relay (all_attempts_failed e)))
            × ((punch_hole
                  (ok tt)
                  (silent, answered, silent)
                  0
                  manager
                  (filled 1)
                  7).0.punched_peers
                ≡ manager.punched_peers)))
punch_hole_outcome_example =
    punch_hole_outcome (ok tt) silent answered silent 0 manager (filled 1) 7 not_symmetric
      not_reached has_socket
