-- ===== src/Storage/Metadata.antt =====
-- src/storage/metadata.rs: the records of files, their blocks and the nodes that store these. Each method
-- takes the time that it reads from the clock. No lock is poisoned.
pub mod Blocks
pub mod Sync
mod Tests
use ll_vpn.Common.{
  ℕ, suc, ◌+◌, ◌%◌, ◌^◌, ite, Bool, true, false, List, [], ◌∷◌, ◌++◌, Option, none, some, ltb, ◌==◌,
  if◌then◌else◌, length, replicate, nat_eq, Result, ok, err, Bytes,
}
use ll_vpn.Common.HashMap
use ll_vpn.Common.HashMap.{HashMap, keys, values, contains_key}
use ll_vpn.NodeId.{bytes_eq, Bytes-discrete}
use ll_vpn.Session.{u64}
use ll_vpn.Storage.Chunk.{Hash, FileManifest}

abbrev pub conflict_window_secs : ℕ
conflict_window_secs = 5

-- `struct BlockLocation`
pub record BlockLocation : Type 0 where
  pub hash : Hash
  pub index : ℕ
  pub nodes : List Bytes
  pub last_synced : ℕ

-- `struct FileMetadata`
pub record FileMetadata : Type 0 where
  pub name : Bytes
  pub file_hash : Hash
  pub file_size : ℕ
  pub blocks : List BlockLocation
  pub created_at : ℕ
  pub updated_at : ℕ
  pub source_node : Bytes
  pub encrypted : Bool

-- `struct MetadataEntry`
pub record MetadataEntry : Type 0 where
  pub meta : FileMetadata
  pub manifest : Option FileManifest

-- `enum MetadataError`
pub data MetadataError : Type 0 where
  already_exists : Bytes → MetadataError
  not_found : Bytes → MetadataError
  io_error : MetadataError
  serialize_error : MetadataError
  lock_poisoned : MetadataError

abbrev pub Entries : Type 0
Entries = HashMap Bytes MetadataEntry

-- `struct MetadataStore`, with what stands in the file at `db_path`.
pub record MetadataStore : Type 0 where
  pub entries : Entries
  pub dirty : Bool
  pub file : Option Entries

unfoldable pub new : MetadataStore
new = record { entries = []; dirty = false; file = none }

-- `load_from_file`, from a file whose text parses.
unfoldable pub load_from_file : Option Entries → MetadataStore
load_from_file file = record {
  entries = elim file [ none ↦ [] | some e ↦ e ];
  dirty = false;
  file = file;
}

unfoldable pub query : Bytes → MetadataStore → Option MetadataEntry
query name s = HashMap.get name s.entries

unfoldable pub contains : Bytes → MetadataStore → Bool
contains name s = contains_key name s.entries

unfoldable pub list_files : MetadataStore → List Bytes
list_files s = keys s.entries

unfoldable pub len : MetadataStore → ℕ
len s = length s.entries

unfoldable pub is_empty : MetadataStore → Bool
unfolding len
is_empty s = len s == 0

unfoldable pub all_entries : MetadataStore → List MetadataEntry
all_entries s = values s.entries

unfoldable pub find_block : ℕ → List BlockLocation → Option BlockLocation
find_block i [] = none
find_block i (b ∷ bs) = if b.index == i then some b else find_block i bs

unfoldable pub get_block_nodes : Bytes → ℕ → MetadataStore → List Bytes
unfolding find_block
get_block_nodes name block_index s = elim (HashMap.get name s.entries) [
  | none ↦ []
  | some e ↦ elim (find_block block_index e.meta.blocks) [ none ↦ [] | some b ↦ b.nodes ]
]

-- `collect` into a map: a later block of the same index takes the place of an earlier one.
unfoldable pub collect_blocks : List BlockLocation → HashMap ℕ (List Bytes) → HashMap ℕ (List Bytes)
collect_blocks [] m = m
collect_blocks (b ∷ bs) m = collect_blocks bs (HashMap.insert b.index b.nodes m)

unfoldable pub get_block_distribution : Bytes → MetadataStore → HashMap ℕ (List Bytes)
unfolding collect_blocks
get_block_distribution name s = elim (HashMap.get name s.entries) [
  | none ↦ []
  | some e ↦ collect_blocks e.meta.blocks []
]

unfoldable pub has_node : Bytes → List Bytes → Bool
has_node node [] = false
has_node node (n ∷ ns) = ite (Bytes-discrete n node) true (has_node node ns)

unfoldable pub add_node : Bytes → List Bytes → List Bytes
unfolding has_node
add_node node ns = if has_node node ns then ns else ns ++ (node ∷ [])

-- The first block of an index gets the node; without such a block, one of unknown hash is appended.
unfoldable pub add_to_block : ℕ → ℕ → Bytes → List BlockLocation → List BlockLocation
unfolding add_node
add_to_block now i node [] =
    record { hash = replicate 32 0; index = i; nodes = node ∷ []; last_synced = now } ∷ []
add_to_block now i node (b ∷ bs) =
    let rest = add_to_block now i node bs in
    if b.index == i
    then record b { nodes = add_node node b.nodes; last_synced = now } ∷ bs
    else b ∷ rest

unfoldable pub add_nodes : List Bytes → List Bytes → List Bytes
unfolding add_node
add_nodes [] ns = ns
add_nodes (n ∷ more) ns = add_nodes more (add_node n ns)

-- The same for a list of nodes, where a block that is missing is left out.
unfoldable pub add_all_to_block : ℕ → ℕ → List Bytes → List BlockLocation → List BlockLocation
unfolding add_nodes
add_all_to_block now i nodes [] = []
add_all_to_block now i nodes (b ∷ bs) =
    let rest = add_all_to_block now i nodes bs in
    if b.index == i
    then record b { nodes = add_nodes nodes b.nodes; last_synced = now } ∷ bs
    else b ∷ rest

unfoldable pub add_each : ℕ → HashMap ℕ (List Bytes) → List BlockLocation → List BlockLocation
unfolding add_all_to_block
add_each now [] bs = bs
add_each now ((i, nodes) ∷ m) bs = add_each now m (add_all_to_block now i nodes bs)

unfoldable pub stamped : ℕ → MetadataEntry → MetadataEntry
stamped now e = record e { meta = record e.meta { updated_at = now } }

-- `hash_entry` by the standard hasher, which sees the name and the file's hash.
module _ (hash_name_hash : Bytes → Hash → ℕ) where
  unfoldable pub hash_entry : MetadataEntry → ℕ
  hash_entry e = hash_name_hash e.meta.name e.meta.file_hash

  unfoldable pub should_merge : Option MetadataEntry → MetadataEntry → Bool
  unfolding hash_entry
  should_merge none remote = true
  should_merge (some local) remote =
      if ltb (u64 (local.meta.updated_at + conflict_window_secs)) remote.meta.updated_at
      then true
      else if ltb (u64 (remote.meta.updated_at + conflict_window_secs)) local.meta.updated_at
      then false
      else ltb (hash_entry local) (hash_entry remote)

  -- One turn of the loop of `sync_from`.
  unfoldable pub merge_one : ℕ → MetadataEntry → Entries → Entries × Bool
  unfolding should_merge stamped
  merge_one now remote entries =
      if should_merge (HashMap.get remote.meta.name entries) remote
      then (HashMap.insert remote.meta.name (stamped now remote) entries, true)
      else (entries, false)

  unfoldable pub merge_each : ℕ → List MetadataEntry → Entries → Entries × ℕ
  unfolding merge_one
  merge_each now [] entries = (entries, 0)
  merge_each now (r ∷ rs) entries =
      let first = merge_one now r entries in
      let rest = merge_each now rs first.0 in (rest.0, (if first.1 then suc rest.1 else rest.1))

unfoldable pub new_entry :
    ℕ → Bytes → Hash → ℕ → Option FileManifest → List BlockLocation → Bytes → MetadataEntry
new_entry now name file_hash file_size manifest blocks source_node = record {
  meta = record {
    name = name;
    file_hash = file_hash;
    file_size = file_size;
    blocks = blocks;
    created_at = now;
    updated_at = now;
    source_node = source_node;
    encrypted = false;
  };
  manifest = manifest;
}

abbrev pub with_blocks :
    ℕ → (List BlockLocation → List BlockLocation) → MetadataEntry → MetadataEntry
with_blocks now f e = record e {
  meta = record e.meta { blocks = f e.meta.blocks; updated_at = now };
}

-- `writes` says whether the file system takes the text.
module _ (writes : Bool) where
  -- `flush` is the same.
  unfoldable pub save_to_file : MetadataStore → MetadataStore × Result MetadataError (Unit {0})
  save_to_file s =
      if writes
      then (record s { dirty = false; file = some s.entries }, ok tt)
      else (s, err io_error)

  unfoldable pub save_if_dirty : MetadataStore → MetadataStore
  unfolding save_to_file
  save_if_dirty s = if s.dirty then (save_to_file s).0 else s

  unfoldable pub put_entries : Entries → MetadataStore → MetadataStore
  unfolding save_if_dirty
  put_entries e s = save_if_dirty (record s { entries = e; dirty = true })

  module _ (now : ℕ) (name : Bytes) where
    unfoldable pub upsert :
        Hash
        → ℕ
        → Option FileManifest
        → List BlockLocation
        → Bytes
        → MetadataStore
        → MetadataStore × Result MetadataError (Unit {0})
    unfolding new_entry put_entries
    upsert file_hash file_size manifest blocks source_node s =
        let e = new_entry now name file_hash file_size manifest blocks source_node in
        (put_entries (HashMap.insert name e s.entries) s, ok tt)

    unfoldable pub register :
        Hash
        → ℕ
        → Option FileManifest
        → List BlockLocation
        → Bytes
        → MetadataStore
        → MetadataStore × Result MetadataError (Unit {0})
    unfolding upsert
    register file_hash file_size manifest blocks source_node s =
        if contains_key name s.entries
        then (s, err (already_exists name))
        else upsert file_hash file_size manifest blocks source_node s

    -- `get_mut`, what is done to the entry, and the save; without an entry, an error.
    unfoldable pub change :
        (MetadataEntry → MetadataEntry)
        → MetadataStore
        → MetadataStore × Result MetadataError (Unit {0})
    unfolding put_entries
    change f s = elim (HashMap.get name s.entries) [
      | none ↦ (s, err (not_found name))
      | some e ↦ (put_entries (HashMap.insert name (f e) s.entries) s, ok tt)
    ]

    unfoldable pub add_block_node :
        ℕ → Bytes → MetadataStore → MetadataStore × Result MetadataError (Unit {0})
    unfolding change add_to_block
    add_block_node block_index node s =
        change (with_blocks now (add_to_block now block_index node)) s

    unfoldable pub add_block_nodes :
        HashMap ℕ (List Bytes) → MetadataStore → MetadataStore × Result MetadataError (Unit {0})
    unfolding change add_each
    add_block_nodes nodes_by_index s = change (with_blocks now (add_each now nodes_by_index)) s

    unfoldable pub mark_encrypted : MetadataStore → MetadataStore × Result MetadataError (Unit {0})
    unfolding change
    mark_encrypted s =
        change (λ e. record e { meta = record e.meta { encrypted = true; updated_at = now } }) s

    unfoldable pub remove_file : MetadataStore → MetadataStore × Result MetadataError (Unit {0})
    unfolding put_entries
    remove_file s = elim (HashMap.get name s.entries) [
      | none ↦ (s, err (not_found name))
      | some e ↦ (put_entries (HashMap.remove name s.entries) s, ok tt)
    ]

  unfoldable pub sync_from :
      (Bytes → Hash → ℕ) → ℕ → List MetadataEntry → MetadataStore → MetadataStore × ℕ
  unfolding merge_each put_entries
  sync_from hash_name_hash now remote s =
      let merged = merge_each hash_name_hash now remote s.entries in
      (if ltb 0 merged.1 then put_entries merged.0 s else s, merged.1)
