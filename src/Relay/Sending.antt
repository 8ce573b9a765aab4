-- ===== src/Relay/Sending.antt =====
-- src/vpn/relay.rs, `RelayManager::send` and `TcpClient::send_message`: the bytes written, and the
-- pool.
use ll_vpn.Common.{◌≡◌, none}
use ll_vpn.NodeId.{NodeId, node_id_eq, bytes_eq}
use ll_vpn.Frame.{Message}
use ll_vpn.Relay.{System, RelayManager, get_node_addr, send}

-- For a target whose address is unknown, the message itself does not matter: what goes to the next hop is
-- the same for any two messages.
pub send_relay_drops :
    (sys : System) (m : RelayManager) (target : NodeId) (first second : Message)
    → get_node_addr m target ≡ none
    → send sys m target first ≡ send sys m target second
unfolding send
send_relay_drops sys m target first second unknown = rw (unknown, send)
