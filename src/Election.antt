-- ===== src/Election.antt =====
-- src/registry/election.rs: the election of the node that runs the registry. Calls of the callbacks that
-- the manager is given are a list of effects; no lock is poisoned. The thread of `start` only sleeps.
pub mod Handle
pub mod Votes
pub mod Majority
mod Tests
use ll_vpn.Common.{
  ℕ, ◌+◌, ◌/◌, ◌%◌, ◌^◌, ite, Bool, true, false, not, ◌&&◌, List, [], ◌∷◌, ◌++◌, Option, none, some,
  ltb, ◌==◌, if◌then◌else◌, length, take, keep, map, be_bytes, from_be, Result, ok, err, Bytes,
}
use ll_vpn.NodeId.{NodeId, NodeId-discrete}
use ll_vpn.Session.{u64}

-- `enum RegistryStatus`
pub data RegistryStatus : Type 0 where
  follower candidate leader : RegistryStatus

unfoldable pub is_follower : RegistryStatus → Bool
is_follower follower = true
is_follower candidate = false
is_follower leader = false

unfoldable pub is_candidate : RegistryStatus → Bool
is_candidate follower = false
is_candidate candidate = true
is_candidate leader = false

unfoldable pub is_leader : RegistryStatus → Bool
is_leader follower = false
is_leader candidate = false
is_leader leader = true

-- `enum ElectionMessageType`
pub data ElectionMessageType : Type 0 where
  election_request election_vote election_result registry_change registry_sync : ElectionMessageType

unfoldable pub type_from_u8 : ℕ → Option ElectionMessageType
type_from_u8 b =
    if b == 0x11
    then some election_request
    else if b == 0x12
    then some election_vote
    else if b == 0x13
    then some election_result
    else if b == 0x14
    then some registry_change
    else if b == 0x15
    then some registry_sync
    else none

unfoldable pub type_to_u8 : ElectionMessageType → ℕ
type_to_u8 election_request = 0x11
type_to_u8 election_vote = 0x12
type_to_u8 election_result = 0x13
type_to_u8 registry_change = 0x14
type_to_u8 registry_sync = 0x15

-- `struct ElectionRequestPayload`
pub record RequestPayload : Type 0 where
  pub candidate_id : NodeId
  pub candidate_name : Bytes
  pub term : ℕ

-- `struct ElectionVotePayload`
pub record VotePayload : Type 0 where
  pub voter_id : NodeId
  pub candidate_id : NodeId
  pub term : ℕ
  pub granted : Bool

-- `struct ElectionResultPayload`
pub record ResultPayload : Type 0 where
  pub leader_id : NodeId
  pub leader_name : Bytes
  pub term : ℕ

-- `struct RegistryChangePayload`
pub record ChangePayload : Type 0 where
  pub registry_id : NodeId
  pub registry_name : Bytes
  pub registry_addr : Bytes
  pub term : ℕ

-- `struct RegistrySyncPayload`
pub record SyncPayload : Type 0 where
  pub requester_id : NodeId
  pub requester_name : Bytes
  pub term : ℕ

-- `struct RegistrySyncResponsePayload`
pub record SyncResponse : Type 0 where
  pub leader_id : NodeId
  pub leader_name : Bytes
  pub term : ℕ
  pub registry_data : Bytes

-- `enum ElectionError`
pub data ElectionError : Type 0 where
  no_relay_manager serialize_error send_failed lock_poisoned election_timeout not_enough_nodes :
      ElectionError

-- `struct KnownNode`
pub record KnownNode : Type 0 where
  pub id : NodeId
  pub name : Bytes
  pub addr : Bytes

-- A message that is sent, before it is written as JSON behind its type byte.
pub data ElectionMessage : Type 0 where
  request_msg : RequestPayload → ElectionMessage
  vote_msg : VotePayload → ElectionMessage
  result_msg : ResultPayload → ElectionMessage
  change_msg : ChangePayload → ElectionMessage
  sync_msg : SyncPayload → ElectionMessage
  sync_response_msg : SyncResponse → ElectionMessage

-- A call of a callback: a message to an address, the start or stop of the registry's server, data to load.
pub data Effect : Type 0 where
  sent : Bytes → ElectionMessage → Effect
  control : Bool → Effect
  loaded : Bytes → Effect

-- `struct ElectionManager`. Of each callback the model keeps whether it is set.
pub record ElectionManager : Type 0 where
  pub local_id : NodeId
  pub local_name : Bytes
  pub status : RegistryStatus
  pub term : ℕ
  pub voted_for : Option NodeId
  pub registry_id : Option NodeId
  pub registry_name : Option Bytes
  pub registry_addr : Option Bytes
  pub last_registry_heartbeat : ℕ
  pub missed_heartbeats : ℕ
  pub heartbeat_miss_threshold : ℕ
  pub known_nodes : List KnownNode
  pub votes_received : List NodeId
  pub send_set : Bool
  pub control_set : Bool
  pub load_set : Bool

unfoldable pub new : ℕ → NodeId → Bytes → ℕ → ElectionManager
new now local_id local_name threshold = record {
  local_id = local_id;
  local_name = local_name;
  status = follower;
  term = 0;
  voted_for = none;
  registry_id = none;
  registry_name = none;
  registry_addr = none;
  last_registry_heartbeat = now;
  missed_heartbeats = 0;
  heartbeat_miss_threshold = threshold;
  known_nodes = [];
  votes_received = [];
  send_set = false;
  control_set = false;
  load_set = false;
}

unfoldable pub has_id : NodeId → List KnownNode → Bool
has_id id [] = false
has_id id (n ∷ ns) = let rest = has_id id ns in ite (NodeId-discrete n.id id) true rest

unfoldable pub add_known_node : KnownNode → ElectionManager → ElectionManager
unfolding has_id
add_known_node n m =
    if has_id n.id m.known_nodes then m else record m { known_nodes = m.known_nodes ++ (n ∷ []) }

unfoldable pub remove_known_node : NodeId → ElectionManager → ElectionManager
remove_known_node id m = record m {
  known_nodes = keep (λ n. ite (NodeId-discrete n.id id) false true) m.known_nodes;
}

unfoldable pub reset_heartbeat_monitor : ℕ → ElectionManager → ElectionManager
reset_heartbeat_monitor now m = record m { last_registry_heartbeat = now; missed_heartbeats = 0 }

unfoldable pub set_registry : ℕ → NodeId → Bytes → Bytes → ElectionManager → ElectionManager
unfolding reset_heartbeat_monitor
set_registry now id name addr m =
    reset_heartbeat_monitor now
      (record m { registry_id = some id; registry_name = some name; registry_addr = some addr })

unfoldable pub record_missed_heartbeat : ElectionManager → ElectionManager
record_missed_heartbeat m = record m { missed_heartbeats = (m.missed_heartbeats + 1) % 2 ^ 32 }

unfoldable pub is_registry_healthy : ElectionManager → Bool
is_registry_healthy m = ltb m.missed_heartbeats m.heartbeat_miss_threshold

unfoldable pub should_start_election : ElectionManager → Bool
unfolding is_follower is_registry_healthy
should_start_election m =
    if is_follower m.status
    then elim m.registry_id [ none ↦ false | some id ↦ not (is_registry_healthy m) ]
    else false

-- The message to every known node, if `send_fn` is set; errors are only logged.
unfoldable pub broadcast : ElectionManager → ElectionMessage → List Effect
broadcast m msg = if m.send_set then map (λ (n : KnownNode). sent n.addr msg) m.known_nodes else []

unfoldable pub request_of : ElectionManager → ElectionMessage
request_of m =
    request_msg (record { candidate_id = m.local_id; candidate_name = m.local_name; term = m.term })

-- The local node stands for the next term and votes for itself.
unfoldable pub stand : ElectionManager → ElectionManager
stand m = record m {
  status = candidate;
  term = u64 (m.term + 1);
  voted_for = some m.local_id;
  votes_received = m.local_id ∷ [];
}

unfoldable pub start_election :
    ElectionManager → ElectionManager × List Effect × Result ElectionError (Unit {0})
unfolding is_candidate broadcast request_of stand
start_election m =
    if is_candidate m.status
    then (m, [], ok tt)
    else if length m.known_nodes == 0
    then (m, [], err not_enough_nodes)
    else (stand m, broadcast (stand m) (request_of (stand m)), ok tt)

unfoldable pub addr_of : NodeId → List KnownNode → Option Bytes
addr_of id [] = none
addr_of id (n ∷ ns) = let rest = addr_of id ns in ite (NodeId-discrete n.id id) (some n.addr) rest

unfoldable pub get_local_addr : ElectionManager → Option Bytes
unfolding addr_of
get_local_addr m = addr_of m.local_id m.known_nodes

-- `ctrl(running)`, if it is set.
unfoldable pub control_registry : Bool → ElectionManager → List Effect
control_registry running m = if m.control_set then control running ∷ [] else []

unfoldable pub leading : ElectionManager → ElectionManager
unfolding get_local_addr
leading m = record m {
  status = leader;
  registry_id = some m.local_id;
  registry_name = some m.local_name;
  registry_addr = get_local_addr m;
}

unfoldable pub announce_change : ElectionManager → Option Bytes → List Effect
unfolding broadcast
announce_change m none = []
announce_change m (some addr) = broadcast m (
    change_msg (record {
      registry_id = m.local_id;
      registry_name = m.local_name;
      registry_addr = addr;
      term = m.term;
    }))

unfoldable pub become_leader : ElectionManager → ElectionManager × List Effect
unfolding leading announce_change control_registry broadcast get_local_addr
become_leader m = (
  leading m,
  control_registry true m
      ++ (broadcast m (
            result_msg
              (record { leader_id = m.local_id; leader_name = m.local_name; term = m.term }))
          ++ announce_change m (get_local_addr m)),
)

-- The registry that a follower takes over, and what stops if it is not the node itself.
unfoldable pub following : Option NodeId → ElectionManager → ElectionManager × List Effect
unfolding control_registry
following none m = (m, [])
following (some id) m = (
  record m { registry_id = some id },
  ite (NodeId-discrete id m.local_id) [] (control_registry false m),
)

unfoldable pub become_follower :
    ℕ → ℕ → Option NodeId → ElectionManager → ElectionManager × List Effect
unfolding following reset_heartbeat_monitor
become_follower now new_term new_registry_id m =
    let stepped = record m {
      term = if ltb m.term new_term then new_term else m.term;
      status = follower;
      voted_for = none;
      votes_received = [];
    } in
    let taken = following new_registry_id stepped in (reset_heartbeat_monitor now taken.0, taken.1)

-- `sha2` is a parameter.
module _ (sha256 : Bytes → Bytes) where
  unfoldable pub compute_candidate_hash : NodeId → ℕ → ℕ
  compute_candidate_hash id term = from_be (take 8 (sha256 (id.bytes ++ be_bytes 8 term)))

  unfoldable pub should_vote_for : NodeId → ℕ → ElectionManager → Bool
  unfolding compute_candidate_hash
  should_vote_for id term m = elim m.voted_for [
    | some _ ↦ false
    | none ↦
        ite (NodeId-discrete id m.local_id) true
          (ltb (from_be (take 8 m.local_id.bytes)) (compute_candidate_hash id term))
  ]
