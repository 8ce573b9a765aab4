-- ===== src/Storage/Gc.antt =====
-- src/storage/gc.rs: the blocks that no version of a file refers to, and the statistics of the storage.
-- A `HashSet` is a `HashMap` to the unit type, as it is in Rust.
pub mod Sets
pub mod Collect
mod Tests
use ll_vpn.Common.{
  ℕ, zero, suc, ◌+◌, ◌-◌, ◌*◌, ◌/◌, Bool, true, false, not, List, [], ◌∷◌, Option, none, some, ltb,
  ◌==◌, if◌then◌else◌, length, Result, ok, err, Bytes,
}
use ll_vpn.Common.HashMap
use ll_vpn.Common.HashMap.{HashMap, keys, retain, contains_key}
use ll_vpn.NodeId.{bytes_eq}
use ll_vpn.Session.{u64}
use ll_vpn.Storage.Chunk.{Hash, ChunkMeta}
use ll_vpn.Storage.Version
use ll_vpn.Storage.Version.{VersionEntry, total_versions}
use ll_vpn.Storage.Version.Manager.{VersionManager, VersionError, list_versions, prune_all_versions}
use ll_vpn.Storage.Metadata.{BlockLocation, MetadataEntry, MetadataStore, query, list_files}

abbrev pub HashSet : Type 0
HashSet = HashMap Hash (Unit {0})

-- `struct StorageStats`
pub record StorageStats : Type 0 where
  pub total_files : ℕ
  pub total_blocks : ℕ
  pub total_bytes : ℕ
  pub versioned_files : ℕ
  pub total_versions : ℕ
  pub referenced_blocks : ℕ
  pub unreferenced_blocks : ℕ
  pub reclaimable_bytes : ℕ

-- `struct CollectResult`
pub record CollectResult : Type 0 where
  pub unreferenced_count : ℕ
  pub reclaimable_bytes : ℕ
  pub unreferenced_hashes : List Hash

-- The three nested loops of `collect_referenced_blocks`, the innermost first.
unfoldable pub insert_chunks : List ChunkMeta → HashSet → HashSet
insert_chunks [] s = s
insert_chunks (c ∷ cs) s = insert_chunks cs (HashMap.insert c.hash tt s)

unfoldable pub insert_versions : List VersionEntry → HashSet → HashSet
unfolding insert_chunks
insert_versions [] s = s
insert_versions (v ∷ vs) s = insert_versions vs (insert_chunks v.manifest.chunks s)

unfoldable pub insert_files : List Bytes → VersionManager → HashSet → HashSet
unfolding insert_versions
insert_files [] m s = s
insert_files (name ∷ names) m s = insert_files names m (insert_versions (list_versions name m) s)

unfoldable pub collect_referenced_blocks : VersionManager → HashSet
unfolding insert_files
collect_referenced_blocks m = insert_files (Version.list_files m.store) m []

unfoldable pub insert_blocks : List BlockLocation → HashSet → HashSet
insert_blocks [] s = s
insert_blocks (b ∷ bs) s = insert_blocks bs (HashMap.insert b.hash tt s)

-- The blocks of a name, none for a name without an entry.
unfoldable pub blocks_of : MetadataStore → Bytes → List BlockLocation
blocks_of s name = elim (query name s) [ none ↦ [] | some e ↦ e.meta.blocks ]

unfoldable pub insert_entries : List Bytes → MetadataStore → HashSet → HashSet
unfolding insert_blocks blocks_of
insert_entries [] s set = set
insert_entries (name ∷ names) s set = insert_entries names s (insert_blocks (blocks_of s name) set)

unfoldable pub collect_all_metadata_blocks : MetadataStore → HashSet
unfolding insert_entries
collect_all_metadata_blocks s = insert_entries (list_files s) s []

unfoldable pub size_of : MetadataStore → Bytes → ℕ
size_of s name = elim (query name s) [ none ↦ 0 | some e ↦ e.meta.file_size ]

-- The sums of sizes and of blocks over the files that have a block. Sums of a `u64` wrap.
unfoldable pub block_sums : List Bytes → MetadataStore → ℕ × ℕ
unfolding blocks_of size_of
block_sums [] s = (0, 0)
block_sums (name ∷ names) s =
    let rest = block_sums names s in
    let count = length (blocks_of s name) in
    if ltb 0 count then (u64 (size_of s name + rest.0), u64 (count + rest.1)) else rest

unfoldable pub estimate_average_block_size : MetadataStore → ℕ
unfolding block_sums
estimate_average_block_size s =
    let sums = block_sums (list_files s) s in
    if sums.1 == 0 then 4 * 1024 * 1024 else sums.0 / sums.1

-- `difference` of sets.
unfoldable pub difference : HashSet → HashSet → List Hash
difference all_blocks referenced = keys (retain (λ h _. not (contains_key h referenced)) all_blocks)

unfoldable pub collect : VersionManager → MetadataStore → CollectResult
unfolding collect_referenced_blocks collect_all_metadata_blocks difference
    estimate_average_block_size
collect m s =
    let all_blocks = collect_all_metadata_blocks s in
    let unreferenced = difference all_blocks (collect_referenced_blocks m) in
    let avg_block_size =
      if length all_blocks == 0 then 4 * 1024 * 1024 else estimate_average_block_size s in
    record {
      unreferenced_count = length unreferenced;
      reclaimable_bytes = u64 (length unreferenced * avg_block_size);
      unreferenced_hashes = unreferenced;
    }

unfoldable pub prune_old_versions :
    Bool → VersionManager → ℕ → Option (VersionManager × Result VersionError ℕ)
prune_old_versions writes m keep_count = prune_all_versions writes keep_count m

-- The sums of `storage_stats` over all files.
unfoldable pub file_sums : List Bytes → MetadataStore → ℕ × ℕ
unfolding blocks_of size_of
file_sums [] s = (0, 0)
file_sums (name ∷ names) s =
    let rest = file_sums names s in
    (length (blocks_of s name) + rest.0, u64 (size_of s name + rest.1))

unfoldable pub storage_stats : VersionManager → MetadataStore → StorageStats
unfolding collect_referenced_blocks collect_all_metadata_blocks estimate_average_block_size
    file_sums
storage_stats m s =
    let all_blocks = collect_all_metadata_blocks s in
    let referenced_blocks = length (collect_referenced_blocks m) in
    let unreferenced_blocks = length all_blocks - referenced_blocks in
    let avg_block_size = if length all_blocks == 0 then 0 else estimate_average_block_size s in
    record {
      total_files = length (list_files s);
      total_blocks = (file_sums (list_files s) s).0;
      total_bytes = (file_sums (list_files s) s).1;
      versioned_files = length (Version.list_files m.store);
      total_versions = Version.total_versions m.store;
      referenced_blocks = referenced_blocks;
      unreferenced_blocks = unreferenced_blocks;
      reclaimable_bytes = u64 (unreferenced_blocks * avg_block_size);
    }
