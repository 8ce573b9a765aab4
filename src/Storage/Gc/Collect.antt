-- ===== src/Storage/Gc/Collect.antt =====
-- src/storage/gc.rs, `collect` and `storage_stats`.
use ll_vpn.Common.{
  suc, ◌+◌, ◌≤◌, ◌≡◌, refl, ap, ◌↔◌, inl, inr, Bool, true, not, List, [], ◌∷◌, none, length,
  Bool-cases, arith, Bytes,
}
use ll_vpn.Common.HashMap
use ll_vpn.Common.HashMap.{
  HashMap, keys, retain, contains_key, Distinct, insert-Distinct, remove-Distinct, get-remove,
  length-remove,
}
use ll_vpn.Common.Sorting.{Any}
use ll_vpn.NodeId.{bytes_eq}
use ll_vpn.Storage.Chunk.{Hash, ChunkMeta}
use ll_vpn.Storage.Version
use ll_vpn.Storage.Version.{VersionEntry}
use ll_vpn.Storage.Version.Manager.{VersionManager, list_versions}
use ll_vpn.Storage.Metadata.{BlockLocation, MetadataStore, list_files}
use ll_vpn.Storage.Gc.{
  HashSet, insert_chunks, insert_versions, insert_files, insert_blocks, insert_entries, blocks_of,
  collect_referenced_blocks, collect_all_metadata_blocks, difference, collect, storage_stats,
}
use ll_vpn.Storage.Gc.Sets.{
  IsIn, IsReferenced, IsListed, collect_referenced_blocks-IsIn, collect_all-IsIn,
}

-- The hash stands in the list.
abbrev pub Contains : Hash → List Hash → Type 0
Contains h = Any (λ k. k ≡ h)

keys-Contains : (h : Hash) (s : HashSet) → Contains h (keys s) ↔ IsIn h s
unfolding keys HashMap.get
keys-Contains h [] = ground arith
keys-Contains h ((k, v) ∷ s) = ground (arith, keys-Contains h s)

retain-Contains :
    (p : Hash → Bool) (h : Hash) (s : HashSet)
    → Contains h (keys (retain (λ k _. p k) s)) ↔ Contains h (keys s) × (p h ≡ true)
unfolding keys retain
retain-Contains p h [] = ground arith
retain-Contains p h ((k, v) ∷ s) = elim (Bool-cases (p k)) [
  | inl kept ↦ ground (arith, kept, retain-Contains p h s)
  | inr gone ↦ ground (arith, gone, retain-Contains p h s)
]

-- `collect` lists a hash exactly if the metadata of some file lists a block of it and no version of any
-- file refers to it: nothing that a version needs is collected, and nothing that none needs is left.
pub collect_iff :
    (m : VersionManager) (s : MetadataStore) (h : Hash)
    → Contains h (collect m s).unreferenced_hashes ↔ IsListed h s × (¬ IsReferenced h m)
unfolding collect difference
collect_iff m s h =
    let refs = collect_referenced_blocks m in
    let all = collect_all_metadata_blocks s in
    ground (
      arith,
      retain-Contains (λ k. not (contains_key k refs)) h all,
      keys-Contains h all,
      collect_all-IsIn h s,
      collect_referenced_blocks-IsIn h m,
    )

-- Each set holds a hash once.
insert_chunks-Distinct :
    (cs : List ChunkMeta) (s : HashSet) → Distinct s → Distinct (insert_chunks cs s)
unfolding insert_chunks
insert_chunks-Distinct [] s d = d
insert_chunks-Distinct (c ∷ cs) s d =
    insert_chunks-Distinct cs (HashMap.insert c.hash tt s) (insert-Distinct c.hash tt s d)

insert_versions-Distinct :
    (vs : List VersionEntry) (s : HashSet) → Distinct s → Distinct (insert_versions vs s)
unfolding insert_versions
insert_versions-Distinct [] s d = d
insert_versions-Distinct (v ∷ vs) s d =
    insert_versions-Distinct vs (insert_chunks v.manifest.chunks s)
      (insert_chunks-Distinct v.manifest.chunks s d)

insert_files-Distinct :
    (names : List Bytes) (m : VersionManager) (s : HashSet)
    → Distinct s
    → Distinct (insert_files names m s)
unfolding insert_files
insert_files-Distinct [] m s d = d
insert_files-Distinct (name ∷ names) m s d =
    insert_files-Distinct names m (insert_versions (list_versions name m) s)
      (insert_versions-Distinct (list_versions name m) s d)

insert_blocks-Distinct :
    (bs : List BlockLocation) (s : HashSet) → Distinct s → Distinct (insert_blocks bs s)
unfolding insert_blocks
insert_blocks-Distinct [] s d = d
insert_blocks-Distinct (b ∷ bs) s d =
    insert_blocks-Distinct bs (HashMap.insert b.hash tt s) (insert-Distinct b.hash tt s d)

insert_entries-Distinct :
    (names : List Bytes) (s : MetadataStore) (set : HashSet)
    → Distinct set
    → Distinct (insert_entries names s set)
unfolding insert_entries
insert_entries-Distinct [] s set d = d
insert_entries-Distinct (name ∷ names) s set d =
    insert_entries-Distinct names s (insert_blocks (blocks_of s name) set)
      (insert_blocks-Distinct (blocks_of s name) set d)

-- Removing a hash that the first set lacks from the second does not change their difference.
without_absent :
    (k : Hash) (all refs : HashSet)
    → HashMap.get k all ≡ none
    → length (retain (λ h _. not (contains_key h (HashMap.remove k refs))) all)
      ≡ length (retain (λ h _. not (contains_key h refs)) all)
unfolding retain HashMap.get
without_absent k [] refs h = refl
without_absent k ((j, v) ∷ all) refs h =
    ground (arith, without_absent k all refs, get-remove j k refs, h)

-- A set of distinct hashes is at most as large as another with its difference from it.
at_most :
    (all refs : HashSet)
    → Distinct all
    → Distinct refs
    → length all ≤ length (retain (λ h _. not (contains_key h refs)) all) + length refs
unfolding retain
at_most [] refs da dr = omega arith
at_most ((k, v) ∷ all) refs da dr = elim (Bool-cases (contains_key k refs)) [
  | inl shared ↦ ground (
    arith,
    shared,
    length-remove k refs dr,
    without_absent k all refs da.0,
    at_most all (HashMap.remove k refs) da.1 (remove-Distinct k refs dr),
  )
  | inr new ↦ ground (arith, new, at_most all refs da.1 dr)
]

length-keys : (s : HashSet) → length (keys s) ≡ length s
unfolding keys
length-keys [] = refl
length-keys (x ∷ s) = ap suc (length-keys s)

collect_all-Distinct : (s : MetadataStore) → Distinct (collect_all_metadata_blocks s)
unfolding collect_all_metadata_blocks
collect_all-Distinct s = insert_entries-Distinct (list_files s) s [] tt

collect_referenced-Distinct : (m : VersionManager) → Distinct (collect_referenced_blocks m)
unfolding collect_referenced_blocks
collect_referenced-Distinct m = insert_files-Distinct (Version.list_files m.store) m [] tt

-- `storage_stats` never reports more unreferenced blocks than `collect` finds; it counts by the sizes of the
-- two sets.
pub storage_stats-collect :
    (m : VersionManager) (s : MetadataStore)
    → (storage_stats m s).unreferenced_blocks ≤ (collect m s).unreferenced_count
unfolding storage_stats collect difference
storage_stats-collect m s =
    let refs = collect_referenced_blocks m in
    let all = collect_all_metadata_blocks s in
    omega (
      arith,
      length-keys (retain (λ h _. not (contains_key h refs)) all),
      at_most all refs (collect_all-Distinct s) (collect_referenced-Distinct m),
    )
