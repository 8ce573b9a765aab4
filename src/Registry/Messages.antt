-- ===== src/Registry/Messages.antt =====
-- src/registry/center.rs, `RegistryServer::process_message` and the requests of `RegistryClient`.
use ll_vpn.Common.{
  ℕ, ◌≡◌, refl, inl, inr, Bool, true, false, List, [], ◌∷◌, Option, none, some, length, map,
  Option-cases, Result, ok, err, Bytes, arith,
}
use ll_vpn.Common.HashMap
use ll_vpn.Common.HashMap.{HashMap, get-insert}
use ll_vpn.NodeId.{NodeId, node_id_eq, bytes_eq}
use ll_vpn.Frame.{Message, registry}
use ll_vpn.Registry.{
  RegistryMessageType, register_msg, register_ack, lookup_msg, lookup_response, reverse_msg,
  reverse_response, list_msg, list_response, type_from_u8, type_to_u8, RegistryError, RegistryEntry,
  RegistryServer, lookup, reverse_lookup, list_nodes, register, saved, with_pair, new_entry,
}
use ll_vpn.Registry.Consistent.{saved-tables}
use ll_vpn.Registry.Cache
use ll_vpn.Registry.Cache.{RegistryCache}

-- `struct RegisterPayload`
pub record RegisterPayload : Type 0 where
  pub name : Bytes
  pub node_id : NodeId

-- The texts of an answer to a registration.
pub data AckText : Type 0 where
  registered : Bytes → AckText
  refused : RegistryError → AckText

-- `struct RegisterAckPayload`
pub record RegisterAckPayload : Type 0 where
  pub success : Bool
  pub message : AckText

-- `struct LookupResponsePayload`
pub record LookupResponsePayload : Type 0 where
  pub found : Bool
  pub node_id : Option NodeId

-- `struct ReverseLookupResponsePayload`
pub record ReverseLookupResponsePayload : Type 0 where
  pub found : Bool
  pub name : Option Bytes

-- `struct NodeInfo`
pub record NodeInfo : Type 0 where
  pub name : Bytes
  pub node_id : NodeId
  pub registered_at : ℕ
  pub last_seen : ℕ

-- `struct ListNodesResponsePayload`
pub record ListNodesResponsePayload : Type 0 where
  pub nodes : List NodeInfo
  pub count : ℕ

-- `serde_json::from_slice` and `serde_json::to_vec` on the payloads. `LookupPayload` holds a name,
-- `ReverseLookupPayload` an id. Writing these does not fail.
pub record Json : Type 0 where
  pub read_register : Bytes → Option RegisterPayload
  pub read_lookup : Bytes → Option Bytes
  pub read_reverse : Bytes → Option NodeId
  pub write_register : RegisterPayload → Bytes
  pub write_lookup : Bytes → Bytes
  pub write_reverse : NodeId → Bytes
  pub write_ack : RegisterAckPayload → Bytes
  pub write_lookup_response : LookupResponsePayload → Bytes
  pub write_reverse_response : ReverseLookupResponsePayload → Bytes
  pub write_list_response : ListNodesResponsePayload → Bytes

-- What is written is read back.
pub record IsFaithful (json : Json) : Type 0 where
  pub register_read : (p : RegisterPayload) → json.read_register (json.write_register p) ≡ some p
  pub lookup_read : (name : Bytes) → json.read_lookup (json.write_lookup name) ≡ some name
  pub reverse_read : (id : NodeId) → json.read_reverse (json.write_reverse id) ≡ some id

abbrev is_some : {A : Type 0} → Option A → Bool
is_some none = false
is_some (some a) = true

unfoldable pub info_of : RegistryEntry → NodeInfo
info_of e = record {
  name = e.name;
  node_id = e.node_id;
  registered_at = e.registered_at;
  last_seen = e.last_seen;
}

unfoldable pub ack_of : Bytes → Result RegistryError (Unit {0}) → RegisterAckPayload
ack_of name (ok u) = record { success = true; message = registered name }
ack_of name (err e) = record { success = false; message = refused e }

module _ (json : Json) where
  unfoldable pub answer_lookup : Option Bytes → RegistryServer → Option Bytes
  answer_lookup none s = none
  answer_lookup (some name) s = some (
      type_to_u8 lookup_response
      ∷ json.write_lookup_response
          (record { found = is_some (lookup name s); node_id = lookup name s }))

  unfoldable pub answer_reverse : Option NodeId → RegistryServer → Option Bytes
  answer_reverse none s = none
  answer_reverse (some id) s = some (
      type_to_u8 reverse_response
      ∷ json.write_reverse_response
          (record { found = is_some (reverse_lookup id s); name = reverse_lookup id s }))

  unfoldable pub answer_list : RegistryServer → Bytes
  unfolding info_of
  answer_list s =
      type_to_u8 list_response
      ∷ json.write_list_response (record {
        nodes = map info_of (list_nodes s);
        count = length (map info_of (list_nodes s));
      })

  module _ (writes : Bool) (now : ℕ) where
    unfoldable pub answer_register :
        Option RegisterPayload → RegistryServer → RegistryServer × Option Bytes
    unfolding ack_of
    answer_register none s = (s, none)
    answer_register (some p) s =
        let done = register writes now p.name p.node_id s in
        (done.0, some (type_to_u8 register_ack ∷ json.write_ack (ack_of p.name done.1)))

    unfoldable pub answer :
        Option RegistryMessageType → Bytes → RegistryServer → RegistryServer × Option Bytes
    unfolding answer_register answer_lookup answer_reverse answer_list
    answer none rest s = (s, none)
    answer (some register_msg) rest s = answer_register (json.read_register rest) s
    answer (some lookup_msg) rest s = (s, answer_lookup (json.read_lookup rest) s)
    answer (some reverse_msg) rest s = (s, answer_reverse (json.read_reverse rest) s)
    answer (some list_msg) rest s = (s, some (answer_list s))
    answer (some register_ack) rest s = (s, none)
    answer (some lookup_response) rest s = (s, none)
    answer (some reverse_response) rest s = (s, none)
    answer (some list_response) rest s = (s, none)

    unfoldable pub process_message : Bytes → RegistryServer → RegistryServer × Option Bytes
    unfolding answer
    process_message [] s = (s, none)
    process_message (b ∷ rest) s = answer (type_from_u8 b) rest s

  -- The messages that the client sends.
  unfoldable pub register_request : Bytes → NodeId → Message
  register_request name id = record {
    msg_type = registry;
    payload = type_to_u8 register_msg ∷ json.write_register (record { name = name; node_id = id });
  }

  unfoldable pub lookup_request : Bytes → Message
  lookup_request name = record {
    msg_type = registry;
    payload = type_to_u8 lookup_msg ∷ json.write_lookup name;
  }

  unfoldable pub reverse_request : NodeId → Message
  reverse_request id = record {
    msg_type = registry;
    payload = type_to_u8 reverse_msg ∷ json.write_reverse id;
  }

  -- `RegistryClient::lookup`: the cache's answer, or none and a message whose answer is not awaited.
  unfoldable pub client_lookup : ℕ → Bytes → RegistryCache → Option NodeId × List Message
  unfolding lookup_request
  client_lookup now name cache = elim (Cache.get now name cache) [
    | some id ↦ (some id, [])
    | none ↦ (none, lookup_request name ∷ [])
  ]

module _ (writes : Bool) (now : ℕ) (name : Bytes) (id : NodeId) (s : RegistryServer) where
  abbrev after : RegistryServer
  after = saved writes (with_pair now name id s.reverse s)

  register_new : lookup name s ≡ none → register writes now name id s ≡ (after, ok tt)
  unfolding register lookup
  register_new new = elim (Option-cases (HashMap.get name s.names)) [
    | inl free ↦ ground (arith, free)
    | inr (e, taken) ↦ absurd (ground (arith, taken, new))
  ]

  lookup_new : lookup name after ≡ some id
  unfolding lookup with_pair new_entry
  lookup_new =
      let paired = saved-tables writes (with_pair now name id s.reverse s) in
      rw (lookup, paired.0) (ground (arith, get-insert name name (new_entry now name id) s.names))

  reverse_new : reverse_lookup id after ≡ some name
  unfolding reverse_lookup with_pair
  reverse_new =
      let paired = saved-tables writes (with_pair now name id s.reverse s) in
      rw (paired.1) (ground (arith, get-insert id id name s.reverse))

-- A new name is registered, and a look-up of it is answered with its id, a reverse look-up of the id with
-- the name, if JSON is read back as it was written.
pub registered_answers :
    (json : Json) (writes : Bool) (now : ℕ) (name : Bytes) (id : NodeId) (s : RegistryServer)
    → IsFaithful json
    → lookup name s ≡ none
    → (s' : RegistryServer) × (process_message json writes now
          (register_request json name id).payload
          s
        ≡ (
          s',
          some (
              type_to_u8 register_ack
              ∷ json.write_ack (record { success = true; message = registered name })),
        ))
      × (process_message json writes now (lookup_request json name).payload s' ≡ (
        s',
        some (
            type_to_u8 lookup_response
            ∷ json.write_lookup_response (record { found = true; node_id = some id })),
      ))
      × (process_message json writes now (reverse_request json id).payload s' ≡ (
        s',
        some (
            type_to_u8 reverse_response
            ∷ json.write_reverse_response (record { found = true; name = some name })),
      ))
unfolding process_message answer answer_register answer_lookup answer_reverse register_request
    lookup_request reverse_request type_from_u8 type_to_u8 ack_of
registered_answers json writes now name id s faithful new =
    let done = register_new writes now name id s new in
    (
      after writes now name id s,
      rw (faithful.register_read (record { name = name; node_id = id }), done) refl,
      rw (faithful.lookup_read name, lookup_new writes now name id s) refl,
      rw (faithful.reverse_read id, reverse_new writes now name id s) refl,
    )
