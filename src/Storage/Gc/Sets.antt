-- ===== src/Storage/Gc/Sets.antt =====
-- src/storage/gc.rs: what the loops that fill the two sets put into them.
use ll_vpn.Common.{
  ◌≡◌, sym, subst, ◌↔◌, ◌⊎◌, inl, inr, true, List, [], ◌∷◌, some, Option-cases, key_eq, arith,
  Bytes,
}
use ll_vpn.Common.HashMap
use ll_vpn.Common.HashMap.{HashMap, keys, values, contains_key, get-insert}
use ll_vpn.Common.Sorting.{Any, Any-sort_by, bytes_leb}
use ll_vpn.NodeId.{bytes_eq}
use ll_vpn.Storage.Chunk.{Hash, ChunkMeta}
use ll_vpn.Storage.Version
use ll_vpn.Storage.Version.{VersionEntry, FileVersions}
use ll_vpn.Storage.Version.Manager.{VersionManager, list_versions}
use ll_vpn.Storage.Metadata.{BlockLocation, MetadataStore, query, list_files}
use ll_vpn.Storage.Gc.{
  HashSet, insert_chunks, insert_versions, insert_files, collect_referenced_blocks, insert_blocks,
  blocks_of, insert_entries, collect_all_metadata_blocks,
}

abbrev pub IsIn : Hash → HashSet → Type 0
IsIn h s = contains_key h s ≡ true

insert-IsIn : (h k : Hash) (s : HashSet) → IsIn h (HashMap.insert k tt s) ↔ (k ≡ h) ⊎ IsIn h s
insert-IsIn h k s = ground (arith, get-insert h k tt s)

-- The list holds a chunk, or a block, of the hash.
abbrev pub InChunks : Hash → List ChunkMeta → Type 0
InChunks h = Any (λ c. c.hash ≡ h)

abbrev pub InVersions : Hash → List VersionEntry → Type 0
InVersions h = Any (λ v. InChunks h v.manifest.chunks)

abbrev pub InBlocks : Hash → List BlockLocation → Type 0
InBlocks h = Any (λ b. b.hash ≡ h)

insert_chunks-IsIn :
    (h : Hash) (cs : List ChunkMeta) (s : HashSet)
    → IsIn h (insert_chunks cs s) ↔ InChunks h cs ⊎ IsIn h s
unfolding insert_chunks
insert_chunks-IsIn h [] s = ground arith
insert_chunks-IsIn h (c ∷ cs) s =
    ground (arith, insert_chunks-IsIn h cs (HashMap.insert c.hash tt s), insert-IsIn h c.hash s)

insert_versions-IsIn :
    (h : Hash) (vs : List VersionEntry) (s : HashSet)
    → IsIn h (insert_versions vs s) ↔ InVersions h vs ⊎ IsIn h s
unfolding insert_versions
insert_versions-IsIn h [] s = ground arith
insert_versions-IsIn h (v ∷ vs) s = ground (
  arith,
  insert_versions-IsIn h vs (insert_chunks v.manifest.chunks s),
  insert_chunks-IsIn h v.manifest.chunks s,
)

insert_files-IsIn :
    (h : Hash) (names : List Bytes) (m : VersionManager) (s : HashSet)
    → IsIn h (insert_files names m s)
      ↔ Any (λ name. InVersions h (list_versions name m)) names ⊎ IsIn h s
unfolding insert_files
insert_files-IsIn h [] m s = ground arith
insert_files-IsIn h (name ∷ names) m s = ground (
  arith,
  insert_files-IsIn h names m (insert_versions (list_versions name m) s),
  insert_versions-IsIn h (list_versions name m) s,
)

insert_blocks-IsIn :
    (h : Hash) (bs : List BlockLocation) (s : HashSet)
    → IsIn h (insert_blocks bs s) ↔ InBlocks h bs ⊎ IsIn h s
unfolding insert_blocks
insert_blocks-IsIn h [] s = ground arith
insert_blocks-IsIn h (b ∷ bs) s =
    ground (arith, insert_blocks-IsIn h bs (HashMap.insert b.hash tt s), insert-IsIn h b.hash s)

insert_entries-IsIn :
    (h : Hash) (names : List Bytes) (s : MetadataStore) (set : HashSet)
    → IsIn h (insert_entries names s set)
      ↔ Any (λ name. InBlocks h (blocks_of s name)) names ⊎ IsIn h set
unfolding insert_entries
insert_entries-IsIn h [] s set = ground arith
insert_entries-IsIn h (name ∷ names) s set = ground (
  arith,
  insert_entries-IsIn h names s (insert_blocks (blocks_of s name) set),
  insert_blocks-IsIn h (blocks_of s name) set,
)

some_of : (P : Bytes → Type 0) (names : List Bytes) → Any P names → (name : Bytes) × P name
some_of P [] h = absurd h
some_of P (n ∷ names) (inl p) = (n, p)
some_of P (n ∷ names) (inr h) = some_of P names h

-- A name that has a value is among the keys.
of_key :
    {V : Type 0} (P : Bytes → Type 0) (name : Bytes) (v : V) (m : HashMap Bytes V)
    → HashMap.get name m ≡ some v
    → P name
    → Any P (keys m)
unfolding HashMap.get keys
of_key P name v [] h p = absurd (ground (arith, h))
of_key P name v ((k, w) ∷ m) h p = elim (key_eq k name) [
  | yes same ↦ inl (subst P (sym same) p)
  | no differ ↦ inr (of_key P name v m (ground (arith, h, differ)) p)
]

-- What every version of every file refers to.
abbrev pub IsReferenced : Hash → VersionManager → Type 0
IsReferenced h m = (name : Bytes) × InVersions h (list_versions name m)

-- What the metadata of some file lists.
abbrev pub IsListed : Hash → MetadataStore → Type 0
IsListed h s = (name : Bytes) × InBlocks h (blocks_of s name)

nothing-IsIn : (h : Hash) → IsIn h [] → ⊥
unfolding HashMap.get
nothing-IsIn h e = ground (arith, e)

only : {A : Type 0} (h : Hash) → A ⊎ IsIn h [] → A
only h (inl a) = a
only h (inr b) = absurd (nothing-IsIn h b)

referenced_key :
    (h name : Bytes) (m : VersionManager)
    → InVersions h (list_versions name m)
    → Any (λ n. InVersions h (list_versions n m)) (keys m.store.files)
unfolding list_versions
referenced_key h name m here = elim (Option-cases (HashMap.get name m.store.files)) [
  | inl missing ↦ absurd (ground (arith, missing, here))
  | inr (f, e) ↦ of_key (λ n. InVersions h (list_versions n m)) name f m.store.files e here
]

listed_key :
    (h name : Bytes) (s : MetadataStore)
    → InBlocks h (blocks_of s name)
    → Any (λ n. InBlocks h (blocks_of s n)) (keys s.entries)
unfolding blocks_of query
listed_key h name s here = elim (Option-cases (HashMap.get name s.entries)) [
  | inl missing ↦ absurd (ground (arith, missing, here))
  | inr (e, there) ↦ of_key (λ n. InBlocks h (blocks_of s n)) name e s.entries there here
]

pub collect_referenced_blocks-IsIn :
    (h : Hash) (m : VersionManager) → IsIn h (collect_referenced_blocks m) ↔ IsReferenced h m
unfolding collect_referenced_blocks Version.list_files
collect_referenced_blocks-IsIn h m =
    let P : Bytes → Type 0 = λ name. InVersions h (list_versions name m) in
    let names = keys m.store.files in
    let all = insert_files-IsIn h (Version.list_files m.store) m [] in
    (
      λ found. some_of P names ((Any-sort_by P bytes_leb names).0 (only h (all.0 found))),
      λ here. all.1 (inl ((Any-sort_by P bytes_leb names).1 (referenced_key h here.0 m here.1))),
    )

pub collect_all-IsIn :
    (h : Hash) (s : MetadataStore) → IsIn h (collect_all_metadata_blocks s) ↔ IsListed h s
unfolding collect_all_metadata_blocks list_files
collect_all-IsIn h s =
    let P : Bytes → Type 0 = λ name. InBlocks h (blocks_of s name) in
    let all = insert_entries-IsIn h (list_files s) s [] in
    (
      λ found. some_of P (keys s.entries) (only h (all.0 found)),
      λ here. all.1 (inl (listed_key h here.0 s here.1)),
    )
