-- ===== src/Registry.antt =====
-- src/registry/center.rs: the names of nodes at the registry's server, its messages, and the client's cache.
-- No lock is poisoned. What serde_json reads and writes is a parameter.
pub mod Consistent
pub mod Run
pub mod Cache
pub mod Messages
mod Tests
use ll_vpn.Common.{
  ℕ, ◌+◌, ite, Bool, true, false, List, [], ◌∷◌, ◌++◌, Option, none, some, ltb, ◌==◌, if◌then◌else◌,
  length, map, Result, ok, err, Bytes,
}
use ll_vpn.Common.HashMap
use ll_vpn.Common.HashMap.{HashMap, values, retain, contains_key}
use ll_vpn.NodeId.{NodeId, node_id_eq, bytes_eq}
use ll_vpn.Session.{from_secs, elapsed}

abbrev pub default_cache_ttl : ℕ
default_cache_ttl = 60

-- `enum RegistryMessageType`
pub data RegistryMessageType : Type 0 where
  register_msg register_ack lookup_msg lookup_response reverse_msg reverse_response list_msg
        list_response :
      RegistryMessageType

unfoldable pub type_from_u8 : ℕ → Option RegistryMessageType
type_from_u8 b =
    if b == 0x01
    then some register_msg
    else if b == 0x02
    then some register_ack
    else if b == 0x03
    then some lookup_msg
    else if b == 0x04
    then some lookup_response
    else if b == 0x05
    then some reverse_msg
    else if b == 0x06
    then some reverse_response
    else if b == 0x07
    then some list_msg
    else if b == 0x08
    then some list_response
    else none

unfoldable pub type_to_u8 : RegistryMessageType → ℕ
type_to_u8 register_msg = 0x01
type_to_u8 register_ack = 0x02
type_to_u8 lookup_msg = 0x03
type_to_u8 lookup_response = 0x04
type_to_u8 reverse_msg = 0x05
type_to_u8 reverse_response = 0x06
type_to_u8 list_msg = 0x07
type_to_u8 list_response = 0x08

-- `enum RegistryError`
pub data RegistryError : Type 0 where
  already_registered : Bytes → RegistryError
  not_found : Bytes → RegistryError
  io_error : RegistryError
  serialize_error : RegistryError
  lock_poisoned : RegistryError

-- `struct RegistryEntry`
pub record RegistryEntry : Type 0 where
  pub name : Bytes
  pub node_id : NodeId
  pub registered_at : ℕ
  pub last_seen : ℕ
  pub ttl : ℕ

unfoldable pub new_entry : ℕ → Bytes → NodeId → RegistryEntry
new_entry now name node_id = record {
  name = name;
  node_id = node_id;
  registered_at = now;
  last_seen = now;
  ttl = default_cache_ttl;
}

unfoldable pub touch : ℕ → RegistryEntry → RegistryEntry
touch now e = record e { last_seen = now }

-- `struct RegistryData`, whose keys of `reverse` are the ids in hex.
pub record RegistryData : Type 0 where
  pub names : HashMap Bytes RegistryEntry
  pub reverse : HashMap NodeId Bytes

-- `struct RegistryServer`, with what stands in the file at `db_path`.
pub record RegistryServer : Type 0 where
  pub names : HashMap Bytes RegistryEntry
  pub reverse : HashMap NodeId Bytes
  pub dirty : Bool
  pub file : Option RegistryData

unfoldable pub new : Option RegistryData → RegistryServer
new file = record { names = []; reverse = []; dirty = false; file = file }

unfoldable pub insert_each : HashMap NodeId Bytes → HashMap NodeId Bytes → HashMap NodeId Bytes
insert_each [] m = m
insert_each ((id, name) ∷ more) m = insert_each more (HashMap.insert id name m)

-- From a file whose text parses. The names are replaced, the reverse entries are added.
unfoldable pub load_from_file : RegistryServer → RegistryServer
unfolding insert_each
load_from_file s = elim s.file [
  | none ↦ s
  | some d ↦ record s { names = d.names; reverse = insert_each d.reverse s.reverse }
]

unfoldable pub lookup : Bytes → RegistryServer → Option NodeId
lookup name s = elim (HashMap.get name s.names) [ none ↦ none | some e ↦ some e.node_id ]

unfoldable pub reverse_lookup : NodeId → RegistryServer → Option Bytes
reverse_lookup id s = HashMap.get id s.reverse

unfoldable pub list_nodes : RegistryServer → List RegistryEntry
list_nodes s = values s.names

unfoldable pub len : RegistryServer → ℕ
len s = length s.names

unfoldable pub is_empty : RegistryServer → Bool
unfolding len
is_empty s = len s == 0

-- The tables with a pair, over the given reverse table.
unfoldable pub with_pair :
    ℕ → Bytes → NodeId → HashMap NodeId Bytes → RegistryServer → RegistryServer
unfolding new_entry
with_pair now name id reverse s = record s {
  names = HashMap.insert name (new_entry now name id) s.names;
  reverse = HashMap.insert id name reverse;
}

-- The reverse entry of the id that the name had before goes.
unfoldable pub without_old : Bytes → RegistryServer → HashMap NodeId Bytes
without_old name s = elim (HashMap.get name s.names) [
  | none ↦ s.reverse
  | some old ↦ HashMap.remove old.node_id s.reverse
]

-- `writes` says whether the file system takes the text.
module _ (writes : Bool) where
  unfoldable pub save_to_file : RegistryServer → RegistryServer × Result RegistryError (Unit {0})
  save_to_file s =
      if writes
      then (
        record s { dirty = false; file = some (record { names = s.names; reverse = s.reverse }) },
        ok tt,
      )
      else (s, err io_error)

  unfoldable pub save_if_dirty : RegistryServer → RegistryServer
  unfolding save_to_file
  save_if_dirty s = if s.dirty then (save_to_file s).0 else s

  -- The end of each change.
  unfoldable pub saved : RegistryServer → RegistryServer
  unfolding save_if_dirty
  saved s = save_if_dirty (record s { dirty = true })

  module _ (now : ℕ) (name : Bytes) where
    unfoldable pub register :
        NodeId → RegistryServer → RegistryServer × Result RegistryError (Unit {0})
    unfolding saved with_pair
    register id s =
        if contains_key name s.names
        then (s, err (already_registered name))
        else (saved (with_pair now name id s.reverse s), ok tt)

    unfoldable pub upsert :
        NodeId → RegistryServer → RegistryServer × Result RegistryError (Unit {0})
    unfolding saved with_pair without_old
    upsert id s = (saved (with_pair now name id (without_old name s) s), ok tt)

    unfoldable pub update_heartbeat :
        RegistryServer → RegistryServer × Result RegistryError (Unit {0})
    unfolding saved touch
    update_heartbeat s =
        if contains_key name s.names
        then (saved (record s { names = HashMap.update name (touch now) s.names }), ok tt)
        else (s, err (not_found name))
