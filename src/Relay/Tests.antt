-- ===== src/Relay/Tests.antt =====
-- src/vpn/relay.rs: runs of the pool and of the manager with one address.
use ll_vpn.Common.{
  ◌+◌, ◌⊎◌, All, ℕ, ◌≡◌, refl, Bool, true, [], ◌∷◌, none, Result, ok, Bytes, ℕ_discrete,
}
use ll_vpn.Common.HashMap
use ll_vpn.Common.Sorting.{Any}
use ll_vpn.NodeId.{NodeId-discrete, node_id_eq, Bytes-discrete, bytes_eq, filled}
use ll_vpn.Frame.{RelayError, Message, payload_data, ack}
use ll_vpn.Pool.{ConnectionPool, pool_of, mark_first, get_connection}
use ll_vpn.Pool.Counted.{Counted, total}
use ll_vpn.Relay.{System, RelayManager, get_node_addr, send_message}
use ll_vpn.Relay.Returning.{IsReturnable, send_message-Counted}

abbrev addr : Bytes
addr = b'h' ∷ []

abbrev alive : ℕ → Bool
alive s = true

abbrev opened : Result RelayError ℕ
opened = ok 4

abbrev cloned : ℕ → Result RelayError ℕ
cloned s = ok s

-- One connection, which is in use.
abbrev pool : ConnectionPool
pool = record {
  connections = (addr, record { stream = 3; last_used = 0; in_use = true } ∷ []) ∷ [];
  max_size = 2;
  max_idle = 60;
  active_count = 1;
}

abbrev system : System
system = record {
  alive = alive;
  now = 5;
  alive_later = alive;
  later = 6;
  opened = opened;
  cloned = cloned;
  written = λ s bytes. ok tt;
}

got_test : (get_connection system.alive system.now system.opened system.cloned pool addr).1 ≡ ok 4
unfolding get_connection mark_first HashMap.get Bytes-discrete ℕ_discrete
got_test = refl

abbrev empty_ack : Message
empty_ack = record { msg_type = ack; payload = [] }

send_message-Counted_example :
    ((send_message system pool addr empty_ack).0.active_count ≡ 1)
    × ((Any (IsReturnable alive) (
            pool_of
              (get_connection system.alive system.now system.opened system.cloned pool addr).0
              addr)
          × (total (send_message system pool addr empty_ack).0.connections ≡ total pool.connections)
          × Counted (send_message system pool addr empty_ack).0)
        ⊎ (All
              (λ c. ¬ IsReturnable alive c)
              (pool_of
                (get_connection system.alive system.now system.opened system.cloned pool addr).0
                addr)
            × (total (send_message system pool addr empty_ack).0.connections
                ≡ total pool.connections + 1)
            × (¬ Counted (send_message system pool addr empty_ack).0)))
send_message-Counted_example = send_message-Counted system pool addr empty_ack 4 refl got_test

abbrev manager : RelayManager
manager = record {
  local_id = filled 1;
  pool = pool;
  known_nodes = (filled 2, addr) ∷ [];
  relay_table = (filled 3, addr) ∷ [];
}

abbrev note : Message
note = record { msg_type = payload_data; payload = 7 ∷ [] }

third_unknown : get_node_addr manager (filled 3) ≡ none
unfolding get_node_addr HashMap.get NodeId-discrete ℕ_discrete
third_unknown = refl
