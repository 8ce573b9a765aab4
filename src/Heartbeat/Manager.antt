-- ===== src/Heartbeat/Manager.antt =====
-- src/vpn/heartbeat.rs, `HeartbeatManager`: the table of nodes, the thread of `start`, and the handling of
-- what arrives. What the callbacks and the sending function are called with is a list of events; `send_fn`
-- and each reading of a clock are arguments.
use ll_vpn.Common.{
  ℕ, ◌+◌, ◌*◌, ◌%◌, ◌^◌, Bool, true, false, not, List, [], ◌∷◌, ◌++◌, Option, none, some, ltb,
  if◌then◌else◌, keep, map, Result, ok, err,
}
use ll_vpn.Common.HashMap
use ll_vpn.Common.HashMap.{HashMap}
use ll_vpn.NodeId.{NodeId, node_id_eq}
use ll_vpn.Session.{from_secs, elapsed, u64}
use ll_vpn.Heartbeat.{
  HeartbeatError, HeartbeatMessage, NodeHeartbeatState, default_heartbeat_interval_secs,
  default_offline_threshold, new_state, request, response, should_be_offline,
}

-- The calls of `HeartbeatCallback`, and of `send_fn`.
pub data Event : Type 0 where
  node_online node_offline : NodeId → Event
  heartbeat_sent heartbeat_received : NodeId → ℕ → Event
  send_called : NodeId → HeartbeatMessage → Event

abbrev pub Nodes : Type 0
Nodes = HashMap NodeId NodeHeartbeatState

-- `struct HeartbeatManager`, but for its two functions.
pub record HeartbeatManager : Type 0 where
  pub local_id : NodeId
  pub interval : ℕ
  pub offline_threshold : ℕ
  pub nodes : Nodes
  pub running : Bool

unfoldable pub new : NodeId → HeartbeatManager
new local = record {
  local_id = local;
  interval = from_secs default_heartbeat_interval_secs;
  offline_threshold = default_offline_threshold;
  nodes = [];
  running = false;
}

unfoldable pub with_interval : NodeId → ℕ → HeartbeatManager
unfolding new
with_interval local interval = record (new local) { interval = interval }

unfoldable pub set_offline_threshold : HeartbeatManager → ℕ → HeartbeatManager
set_offline_threshold m threshold = record m { offline_threshold = threshold }

unfoldable pub add_node : ℕ → Nodes → NodeId → Nodes
unfolding new_state
add_node now nodes id =
    if HashMap.contains_key id nodes then nodes else HashMap.insert id (new_state now id) nodes

unfoldable pub remove_node : Nodes → NodeId → Nodes
remove_node nodes id = HashMap.remove id nodes

unfoldable pub get_node_state : Nodes → NodeId → Option NodeHeartbeatState
get_node_state nodes id = HashMap.get id nodes

unfoldable pub online_nodes : Nodes → List NodeId
online_nodes nodes = map (λ s. s.node_id) (keep (λ s. s.is_online) (HashMap.values nodes))

unfoldable pub offline_nodes : Nodes → List NodeId
offline_nodes nodes = map (λ s. s.node_id) (keep (λ s. not s.is_online) (HashMap.values nodes))

module _ (send_fn : NodeId → HeartbeatMessage → Result HeartbeatError (Unit {0}))
    (local : NodeId) where
  -- One turn of the loop over the monitored nodes, with the Unix time in seconds.
  unfoldable pub send_one : ℕ → ℕ → Nodes → NodeId → Nodes × List Event
  send_one now_secs sequence nodes id =
      let msg : HeartbeatMessage = record {
        msg_type = request;
        sender_id = local;
        timestamp = now_secs;
        sequence = sequence;
      } in
      elim (send_fn id msg) [
        | err e ↦ (nodes, send_called id msg ∷ [])
        | ok _ ↦ (
          HashMap.update id (λ s. record s { send_sequence = sequence }) nodes,
          send_called id msg ∷ heartbeat_sent id sequence ∷ [],
        )
      ]

  -- The loop over the nodes; `clock` reads the Unix time for each message.
  unfoldable pub send_all : (NodeId → ℕ) → ℕ → List NodeId → Nodes → Nodes × List Event
  unfolding send_one
  send_all clock sequence [] nodes = (nodes, [])
  send_all clock sequence (id ∷ ids) nodes =
      let (nodes', events) = send_one (clock id) sequence nodes id in
      let (last, later) = send_all clock sequence ids nodes' in (last, events ++ later)

  -- `send_response`: the message that is sent, and what `send_fn` says.
  unfoldable pub send_response :
      ℕ → NodeId → ℕ → HeartbeatMessage × Result HeartbeatError (Unit {0})
  send_response now_secs target sequence =
      let msg : HeartbeatMessage = record {
        msg_type = response;
        sender_id = local;
        timestamp = now_secs;
        sequence = sequence;
      } in
      (msg, send_fn target msg)

module _ (interval threshold : ℕ) where
  -- The check of one node for a heartbeat that is overdue.
  unfoldable pub check : ℕ → NodeHeartbeatState → NodeHeartbeatState × List Event
  unfolding should_be_offline
  check now s =
      let late = record s { missed_count = (s.missed_count + 1) % 2 ^ 32 } in
      if ltb (interval * 2) (elapsed now s.last_heartbeat)
      then (if s.is_online
          then (if should_be_offline late threshold
              then (record late { is_online = false }, node_offline s.node_id ∷ [])
              else (late, []))
          else (s, []))
      else (s, [])

  -- The loop over all nodes, under the lock; `clock` reads the time for each node.
  unfoldable pub sweep : (NodeId → ℕ) → Nodes → Nodes × List Event
  sweep clock [] = ([], [])
  sweep clock ((id, s) ∷ nodes) =
      let (s', events) = check (clock id) s in
      let (rest, later) = sweep clock nodes in ((id, s') ∷ rest, events ++ later)

-- One round of the thread that `start` spawns, with nothing in between; and the next sequence number.
unfoldable pub round :
    (NodeId → HeartbeatMessage → Result HeartbeatError (Unit {0}))
    → (NodeId → ℕ)
    → (NodeId → ℕ)
    → HeartbeatManager
    → ℕ
    → HeartbeatManager × ℕ × List Event
unfolding send_all sweep
round send_fn secs clock m sequence =
    let (sent, events) = send_all send_fn m.local_id secs sequence (HashMap.keys m.nodes) m.nodes in
    let (swept, later) = sweep m.interval m.offline_threshold clock sent in
    (record m { nodes = swept }, u64 (sequence + 1), events ++ later)

unfoldable pub stop : HeartbeatManager → HeartbeatManager
stop m = record m { running = false }

-- `entry(..).or_insert_with(..)`
abbrev pub known_or_new : ℕ → NodeId → Option NodeHeartbeatState → NodeHeartbeatState
known_or_new now id none = new_state now id
known_or_new now id (some s) = s

-- The assignments of `handle_heartbeat`.
abbrev pub heard : ℕ → ℕ → NodeHeartbeatState → NodeHeartbeatState
heard now sequence s = record s {
  last_heartbeat = now;
  missed_count = 0;
  is_online = true;
  recv_sequence = sequence;
}

unfoldable pub handle_heartbeat : ℕ → Nodes → HeartbeatMessage → Nodes × List Event
unfolding new_state
handle_heartbeat now nodes msg =
    let state = known_or_new now msg.sender_id (HashMap.get msg.sender_id nodes) in
    let received = heartbeat_received msg.sender_id msg.sequence ∷ [] in
    (
      HashMap.insert msg.sender_id (heard now msg.sequence state) nodes,
      (if state.is_online then received else node_online msg.sender_id ∷ received),
    )
