-- ===== src/Heartbeat/Tests.antt =====
-- src/vpn/heartbeat.rs: runs of messages and of the table on small inputs.
use ll_vpn.Common.{
  ◌+◌, ◌≡◌, refl, true, List, [], ◌∷◌, ◌++◌, some, ok, arith, Bytes, ℕ_discrete, ltb, from_be,
  Result,
}
use ll_vpn.Common.HashMap
use ll_vpn.NodeId.{NodeId, NodeId-discrete, node_id_eq, filled, IsNodeId}
use ll_vpn.NodeId
use ll_vpn.Heartbeat.{
  HeartbeatMessage, request, HeartbeatError, NodeHeartbeatState, from_bytes, after_type,
  type_from_u8,
}
use ll_vpn.Heartbeat.Manager.{HeartbeatManager, Nodes}
use ll_vpn.Heartbeat.RoundTrip.{IsMessage}
use ll_vpn.Heartbeat.Detection.{sweeps, sweeps_detect}
use ll_vpn.Heartbeat.Alternation.{Keyed, Balanced}
use ll_vpn.Heartbeat.Run.{Step, check_all, arrive, run, run-Balanced}

abbrev beat : HeartbeatMessage
beat = record { msg_type = request; sender_id = filled 2; timestamp = 70; sequence = 3 }

beat-IsMessage : IsMessage beat
beat-IsMessage = record {
  sender = record { size = refl; in_range = ground arith };
  timed = omega arith;
  numbered = omega arith;
}

abbrev beat_bytes : Bytes
beat_bytes =
    1 ∷ (filled 2).bytes
    ++ (0 ∷ 0 ∷ 0 ∷ 0 ∷ 0 ∷ 0 ∷ 0 ∷ 70 ∷ 0 ∷ 0 ∷ 0 ∷ 0 ∷ 0 ∷ 0 ∷ 0 ∷ 3 ∷ 9 ∷ [])

beat_read : from_bytes beat_bytes ≡ some beat
unfolding from_bytes type_from_u8 after_type NodeId.from_bytes from_be
beat_read = refl

-- A node that was heard of at time 0.
abbrev silent : NodeHeartbeatState
silent = record {
  node_id = filled 2;
  last_heartbeat = 0;
  missed_count = 0;
  is_online = true;
  send_sequence = 0;
  recv_sequence = 0;
}

abbrev nodes : Nodes
nodes = (filled 2, silent) ∷ []

nodes_found : HashMap.get (filled 2) nodes ≡ some silent
unfolding HashMap.get NodeId-discrete ℕ_discrete
nodes_found = refl

sweeps_detect_example :
    (t : NodeHeartbeatState) × (HashMap.get
        (filled 2)
        (sweeps 5 2 ((λ id. 11) ∷ (λ id. 16) ∷ []) nodes)
      ≡ some t)
    × (t.is_online ≡ ltb (0 + 2) 2)
sweeps_detect_example =
    sweeps_detect 5 2 ((λ id. 11) ∷ (λ id. 16) ∷ []) (filled 2) nodes silent nodes_found
      (omega arith) refl (omega arith) (omega arith, (omega arith, tt))

abbrev send_ok : NodeId → HeartbeatMessage → Result HeartbeatError (Unit {0})
send_ok id msg = ok tt

abbrev steps : List Step
steps = check_all (λ id. 11) ∷ check_all (λ id. 16) ∷ arrive 17 beat ∷ []

nodes-Keyed : Keyed nodes
unfolding HashMap.get
nodes-Keyed = ((refl, tt), (refl, tt))

run-Balanced_example :
    Keyed (run send_ok (filled 1) 5 2 nodes steps).0
    × Balanced (filled 2) nodes (run send_ok (filled 1) 5 2 nodes steps)
run-Balanced_example =
    run-Balanced send_ok (filled 1) 5 2 nodes steps (filled 2) nodes-Keyed (tt, (tt, (tt, tt)))

abbrev manager : HeartbeatManager
manager = record {
  local_id = filled 1;
  interval = 5;
  offline_threshold = 2;
  nodes = nodes;
  running = true;
}
