-- ===== src/Dht/Messages/Safety.antt =====
-- src/vpn/dht.rs, `process_message` and the invariant of the routing table.
use ll_vpn.Common.{
  ℕ, List, [], ◌∷◌, inl, inr, Bytes, All, IsByte, Option-cases, ◌+◌, if_cases, ltb, length, from_be,
  take, drop,
}
use ll_vpn.NodeId.{NodeId, IsNodeId}
use ll_vpn.Dht.Table.{DhtManager, put_value, insert_node}
use ll_vpn.Dht.Table.Invariant.{Inv, insert_node-Inv, touch_node-Inv}
use ll_vpn.Dht.NodeList.{decode_node_list}
use ll_vpn.Dht.NodeList.RoundTrip.{decode_node_list_ids}
use ll_vpn.Dht.Messages.{
  DhtMessageType, ping, pong, find_nodes, nodes, put_request, get_request, value_reply,
  type_from_u8, insert_contacts, handle_put, handle, process_message,
}

insert_contacts-Inv :
    (now : ℕ) (d : DhtManager) (contacts : List (NodeId × Bytes))
    → Inv d
    → All (λ e. IsNodeId e.0) contacts
    → Inv (insert_contacts now d contacts)
unfolding insert_contacts
insert_contacts-Inv now d [] v h = v
insert_contacts-Inv now d ((id, addr) ∷ contacts) v h =
    insert_contacts-Inv now (insert_node now d id addr).0 contacts
      (insert_node-Inv d v now id addr h.0) h.1

module _ (sha256 : Bytes → Bytes) (now now_secs : ℕ) (d : DhtManager) (v : Inv d) where
  handle_put-Inv : (bytes : Bytes) → Inv (handle_put sha256 now now_secs d bytes)
  unfolding handle_put put_value
  handle_put-Inv bytes =
      if_cases Inv (ltb (length bytes) 2) _ _ (λ _. v)
        λ _.
          if_cases Inv (ltb (length (drop 2 bytes)) (from_be (take 2 bytes) + 4)) _ _ (λ _. v)
            λ _.
              if_cases Inv _ _ _ (λ _. v)
                (λ _. record { own = v.own; count = v.count; placed = v.placed })

  handle-Inv :
      (t : DhtMessageType) (sender : NodeId) (bytes : Bytes)
      → IsNodeId sender
      → All IsByte bytes
      → Inv (handle sha256 now now_secs t d sender bytes).0
  unfolding handle
  handle-Inv ping sender bytes hs hb = touch_node-Inv d v now sender hs
  handle-Inv pong sender bytes hs hb = touch_node-Inv d v now sender hs
  handle-Inv find_nodes sender bytes hs hb = v
  handle-Inv nodes sender bytes hs hb =
      insert_contacts-Inv now d (decode_node_list bytes) v (decode_node_list_ids bytes hb)
  handle-Inv put_request sender bytes hs hb = handle_put-Inv bytes
  handle-Inv get_request sender bytes hs hb = v
  handle-Inv value_reply sender bytes hs hb = v

  -- If the table is in order, it is so after a message of any bytes from any sender with an id of 32
  -- bytes.
  pub process_message-Inv :
      (sender : NodeId) (bytes : Bytes)
      → IsNodeId sender
      → All IsByte bytes
      → Inv (process_message sha256 now now_secs d sender bytes).0
  unfolding process_message
  process_message-Inv sender [] hs hb = v
  process_message-Inv sender (b ∷ bytes) hs hb = elim (Option-cases (type_from_u8 b)) [
    | inl unknown ↦ rw (unknown, process_message) v
    | inr (t, known) ↦ rw (known, process_message) (handle-Inv t sender bytes hs hb.1)
  ]
