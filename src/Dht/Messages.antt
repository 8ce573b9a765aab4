-- ===== src/Dht/Messages.antt =====
-- src/vpn/dht.rs, `process_message`: what a node does with each message, and what it answers. The clock
-- is read once for `Instant`s and once for Unix seconds.
pub mod Safety
pub mod Put
use ll_vpn.Common.{
  ℕ, suc, ◌+◌, ◌%◌, ◌^◌, Bool, List, [], ◌∷◌, ◌++◌, Option, none, some, ltb, ◌==◌, if◌then◌else◌,
  length, take, drop, Bytes, be_bytes, from_be,
}
use ll_vpn.NodeId.{NodeId, from_bytes}
use ll_vpn.Frame.{Message, dht}
use ll_vpn.Dht.Table.{
  DhtManager, ValueEntry, insert_node, touch_node, find_node, put_value, get_value_by_hash,
}
use ll_vpn.Dht.NodeList.{encode_node_list, decode_node_list}

-- `enum DhtMessageType`
pub data DhtMessageType : Type 0 where
  ping pong find_nodes nodes put_request get_request value_reply : DhtMessageType

unfoldable pub type_from_u8 : ℕ → Option DhtMessageType
type_from_u8 b =
    if b == 0x01
    then some ping
    else if b == 0x02
    then some pong
    else if b == 0x03
    then some find_nodes
    else if b == 0x04
    then some nodes
    else if b == 0x05
    then some put_request
    else if b == 0x06
    then some get_request
    else if b == 0x07
    then some value_reply
    else none

unfoldable pub type_to_u8 : DhtMessageType → ℕ
type_to_u8 ping = 0x01
type_to_u8 pong = 0x02
type_to_u8 find_nodes = 0x03
type_to_u8 nodes = 0x04
type_to_u8 put_request = 0x05
type_to_u8 get_request = 0x06
type_to_u8 value_reply = 0x07

unfoldable pub create_dht_message : DhtMessageType → Bytes → Message
create_dht_message t payload = record { msg_type = dht; payload = type_to_u8 t ∷ payload }

-- The answer to `FindNode`, for the 32 bytes of a target.
unfoldable pub find_reply : DhtManager → Bytes → List Message
unfolding create_dht_message
find_reply d bytes =
    if ltb (length bytes) 32
    then create_dht_message nodes (encode_node_list []) ∷ []
    else create_dht_message nodes (encode_node_list (find_node d (from_bytes (take 32 bytes)))) ∷ []

-- The loop over the contacts of a `Nodes` message.
unfoldable pub insert_contacts : ℕ → DhtManager → List (NodeId × Bytes) → DhtManager
insert_contacts now d [] = d
insert_contacts now d ((id, addr) ∷ contacts) =
    insert_contacts now (insert_node now d id addr).0 contacts

-- The answer to `Get`, for the 32 bytes of a hash: the hash, the length of the value, and the value.
unfoldable pub get_reply : ℕ → DhtManager → Bytes → List Message
unfolding create_dht_message
get_reply now_secs d bytes =
    if ltb (length bytes) 32 then [] else elim (get_value_by_hash now_secs d (take 32 bytes)) [
      | none ↦ []
      | some entry ↦
          create_dht_message value_reply
            (take 32 bytes ++ (be_bytes 4 (length entry.value % 2 ^ 32) ++ entry.value))
          ∷ []
    ]

module _ (sha256 : Bytes → Bytes) (now now_secs : ℕ) where
  -- The last checks of `handle_put`, behind the key.
  unfoldable pub put_behind_key : DhtManager → Bytes → Bytes → DhtManager
  put_behind_key d key rest =
      let value_len = from_be (take 4 rest) in
      let behind = drop 4 rest in
      if ltb (length behind) (value_len + 8)
      then d
      else (put_value sha256 now_secs d key (take value_len behind)
          (from_be (take 8 (drop value_len behind)))).0

  -- A length of 2 bytes and the key, a length of 4 bytes and the value, and the time to live in 8.
  unfoldable pub handle_put : DhtManager → Bytes → DhtManager
  unfolding put_behind_key
  handle_put d bytes =
      let key_len = from_be (take 2 bytes) in
      let behind = drop 2 bytes in
      if ltb (length bytes) 2
      then d
      else if ltb (length behind) (key_len + 4)
      then d
      else put_behind_key d (take key_len behind) (drop key_len behind)

  unfoldable pub handle : DhtMessageType → DhtManager → NodeId → Bytes → DhtManager × List Message
  unfolding create_dht_message find_reply insert_contacts handle_put get_reply
  handle ping d sender bytes = ((touch_node now d sender).0, create_dht_message pong [] ∷ [])
  handle pong d sender bytes = ((touch_node now d sender).0, [])
  handle find_nodes d sender bytes = (d, find_reply d bytes)
  handle nodes d sender bytes = (insert_contacts now d (decode_node_list bytes), [])
  handle put_request d sender bytes = (handle_put d bytes, [])
  handle get_request d sender bytes = (d, get_reply now_secs d bytes)
  handle value_reply d sender bytes = (d, [])

  unfoldable pub process_message : DhtManager → NodeId → Bytes → DhtManager × List Message
  unfolding handle type_from_u8
  process_message d sender [] = (d, [])
  process_message d sender (b ∷ bytes) = elim (type_from_u8 b) [
    | none ↦ (d, [])
    | some t ↦ handle t d sender bytes
  ]
