-- ===== src/Bootstrap.antt =====
-- src/vpn/bootstrap.rs: the request that a node sends to a bootstrap node, and the tables of the manager. A
-- text is its bytes; the loaders of configurations are left out.
pub mod RoundTrip
pub mod Discovery
mod Tests
use ll_vpn.Common.{
  ℕ, ◌+◌, ◌%◌, ◌^◌, Bool, true, false, List, [], ◌∷◌, ◌++◌, Option, none, some, ltb, ◌==◌,
  if◌then◌else◌, length, take, drop, get_or, Result, ok, err, Bytes, be_bytes, from_be,
}
use ll_vpn.Common.HashMap
use ll_vpn.Common.HashMap.{HashMap}
use ll_vpn.NodeId.{NodeId, node_id_eq}
use ll_vpn.NodeId
use ll_vpn.Dht.NodeList.{is_utf8}

-- `struct BootstrapNode`
pub record BootstrapNode : Type 0 where
  pub host : Bytes
  pub port : ℕ
  pub priority : ℕ

-- `enum BootstrapError`; its texts are left out.
pub data BootstrapError : Type 0 where
  config_error connection_failed handshake_failed timeout all_nodes_unreachable : BootstrapError

-- `struct KnownNode`
pub record KnownNode : Type 0 where
  pub id : NodeId
  pub name : Bytes
  pub addr : Bytes
  pub discovered_at : ℕ
  pub source : Bytes

-- `struct BootstrapManager`; of the configuration its list of nodes.
pub record BootstrapManager : Type 0 where
  pub local_id : NodeId
  pub local_name : Bytes
  pub nodes : List BootstrapNode
  pub known_nodes : HashMap NodeId KnownNode
  pub connected_bootstrap : List Bytes

unfoldable pub new_manager : NodeId → Bytes → List BootstrapNode → BootstrapManager
new_manager local name nodes = record {
  local_id = local;
  local_name = name;
  nodes = nodes;
  known_nodes = [];
  connected_bootstrap = [];
}

-- The code connects to nothing yet, and always finds no node.
unfoldable pub connect_to_bootstrap_node : BootstrapNode → Result BootstrapError (List KnownNode)
connect_to_bootstrap_node node = ok []

-- `Vec::is_empty`
unfoldable pub no_nodes : {A : Type 0} → List A → Bool
no_nodes [] = true
no_nodes (x ∷ xs) = false

-- `format!("{}:{}", host, port)`; `to_text` prints a number.
module _ (to_text : ℕ → Bytes) where
  unfoldable pub addr : BootstrapNode → Bytes
  addr node = node.host ++ (b':' ∷ to_text node.port)

  -- The loop of `bootstrap`: the nodes that were discovered, and the addresses that were connected.
  unfoldable pub try_nodes : List BootstrapNode → List KnownNode × List Bytes
  unfolding addr connect_to_bootstrap_node
  try_nodes [] = ([], [])
  try_nodes (node ∷ nodes) =
      let (found, connected) = try_nodes nodes in
      elim (connect_to_bootstrap_node node) [
        | ok known ↦ (known ++ found, addr node ∷ connected)
        | err e ↦ (found, connected)
      ]

  unfoldable pub bootstrap :
      BootstrapManager → BootstrapManager × Result BootstrapError (List KnownNode)
  unfolding try_nodes no_nodes
  bootstrap m =
      let (found, connected) = try_nodes m.nodes in
      if no_nodes m.nodes then (m, err config_error) else (
        record m { connected_bootstrap = m.connected_bootstrap ++ connected },
        (if no_nodes found then err all_nodes_unreachable else ok found),
      )

unfoldable pub add_known_node : BootstrapManager → KnownNode → BootstrapManager
add_known_node m node = record m { known_nodes = HashMap.insert node.id node m.known_nodes }

unfoldable pub remove_known_node : BootstrapManager → NodeId → BootstrapManager × Option KnownNode
remove_known_node m id =
    (record m { known_nodes = HashMap.remove id m.known_nodes }, HashMap.get id m.known_nodes)

unfoldable pub is_bootstrapped : BootstrapManager → Bool
is_bootstrapped m = elim m.connected_bootstrap [ [] ↦ false | _ ∷ _ ↦ true ]

-- `enum BootstrapRequestType`
pub data BootstrapRequestType : Type 0 where
  get_node_list report_node node_list_response : BootstrapRequestType

unfoldable pub type_from_u8 : ℕ → Option BootstrapRequestType
type_from_u8 b =
    if b == 0x01
    then some get_node_list
    else if b == 0x02
    then some report_node
    else if b == 0x03
    then some node_list_response
    else none

unfoldable pub type_to_u8 : BootstrapRequestType → ℕ
type_to_u8 get_node_list = 0x01
type_to_u8 report_node = 0x02
type_to_u8 node_list_response = 0x03

-- `struct BootstrapRequest`
pub record BootstrapRequest : Type 0 where
  pub request_type : BootstrapRequestType
  pub sender_id : NodeId
  pub sender_name : Bytes
  pub timestamp : ℕ

-- `len() as u8` keeps the last 8 bits.
unfoldable pub to_bytes : BootstrapRequest → Bytes
to_bytes r =
    type_to_u8 r.request_type
    ∷ (r.sender_id.bytes
        ++ ((length r.sender_name % 2 ^ 8) ∷ (r.sender_name ++ be_bytes 8 r.timestamp)))

-- The last part of `from_bytes`: what stands behind the length of the name.
unfoldable pub after_length : BootstrapRequestType → NodeId → ℕ → Bytes → Option BootstrapRequest
after_length t id name_len rest =
    if ltb (length rest) (name_len + 8)
    then none
    else if is_utf8 (take name_len rest)
    then some (record {
      request_type = t;
      sender_id = id;
      sender_name = take name_len rest;
      timestamp = from_be (take 8 (drop name_len rest));
    })
    else none

unfoldable pub from_bytes : Bytes → Option BootstrapRequest
unfolding type_from_u8
from_bytes bytes =
    if ltb (length bytes) (1 + 32 + 1 + 8) then none else elim (type_from_u8 (get_or bytes 0 0)) [
      | none ↦ none
      | some t ↦
          after_length t (NodeId.from_bytes (take 32 (drop 1 bytes))) (get_or bytes 33 0)
            (drop 34 bytes)
    ]
