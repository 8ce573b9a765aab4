-- ===== src/Relay.antt =====
-- src/vpn/relay.rs, `TcpClient` and `RelayManager`: to which address a message goes. What is written to
-- streams is a list of events; what the system answers is an argument, one record of it for each sending.
pub mod Sending
pub mod Returning
mod Tests
use ll_vpn.Common.{ℕ, Bool, List, [], ◌∷◌, Option, none, some, Result, ok, err, Bytes}
use ll_vpn.Common.HashMap
use ll_vpn.Common.HashMap.{HashMap}
use ll_vpn.NodeId.{NodeId, node_id_eq}
use ll_vpn.Frame.{RelayError, unreachable, Message, relay, payload_data, to_bytes}
use ll_vpn.Pool.{ConnectionPool, get_connection, return_connection}
use ll_vpn.Pool

abbrev pub default_pool_size : ℕ
default_pool_size = 10

-- What the system answers while a message is sent: whether a stream has a peer and the time, each when the
-- connection is taken and again when it is returned, what opening and cloning a stream come to, and what
-- writing and flushing bytes do.
pub record System : Type 0 where
  pub alive : ℕ → Bool
  pub now : ℕ
  pub alive_later : ℕ → Bool
  pub later : ℕ
  pub opened : Result RelayError ℕ
  pub cloned : ℕ → Result RelayError ℕ
  pub written : ℕ → Bytes → Result RelayError (Unit {0})

-- Bytes that are written to a stream.
abbrev pub Write : Type 0
Write = ℕ × Bytes

abbrev pub Sent : Type 0 → Type 0
Sent S = S × List Write × Result RelayError (Unit {0})

-- `TcpClient::send_message`, on the client's pool.
unfoldable pub send_message : System → ConnectionPool → Bytes → Message → Sent ConnectionPool
send_message sys p addr msg =
    let (p', connection) = get_connection sys.alive sys.now sys.opened sys.cloned p addr in
    elim connection [
      | err e ↦ (p', [], err e)
      | ok stream ↦ (
        return_connection sys.alive_later sys.later p' addr,
        (stream, to_bytes msg) ∷ [],
        sys.written stream (to_bytes msg),
      )
    ]

-- `struct RelayManager`, but for the server.
pub record RelayManager : Type 0 where
  pub local_id : NodeId
  pub pool : ConnectionPool
  pub known_nodes : HashMap NodeId Bytes
  pub relay_table : HashMap NodeId Bytes

unfoldable pub new : NodeId → RelayManager
new local = record {
  local_id = local;
  pool = Pool.new default_pool_size;
  known_nodes = [];
  relay_table = [];
}

unfoldable pub register_node : RelayManager → NodeId → Bytes → RelayManager
register_node m id addr = record m { known_nodes = HashMap.insert id addr m.known_nodes }

unfoldable pub get_node_addr : RelayManager → NodeId → Option Bytes
get_node_addr m id = HashMap.get id m.known_nodes

unfoldable pub set_relay : RelayManager → NodeId → Bytes → RelayManager
set_relay m target next_hop = record m {
  relay_table = HashMap.insert target next_hop m.relay_table;
}

-- A message that the client sends for the manager.
unfoldable pub client_send : System → RelayManager → Bytes → Message → Sent RelayManager
client_send sys m addr msg =
    let (p, writes, r) = send_message sys m.pool addr msg in (record m { pool = p }, writes, r)

unfoldable pub send : System → RelayManager → NodeId → Message → Sent RelayManager
unfolding get_node_addr
send sys m target msg = elim (get_node_addr m target) [
  | some addr ↦ client_send sys m addr msg
  | none ↦ elim (HashMap.get target m.relay_table) [
    | some next_hop ↦
        client_send sys m next_hop (record { msg_type = relay; payload = target.bytes })
    | none ↦ (m, [], err (unreachable target))
  ]
]

unfoldable pub relay_to : System → RelayManager → NodeId → Bytes → Sent RelayManager
unfolding get_node_addr
relay_to sys m target payload = elim (get_node_addr m target) [
  | none ↦ (m, [], err (unreachable target))
  | some addr ↦ client_send sys m addr (record { msg_type = payload_data; payload = payload })
]
