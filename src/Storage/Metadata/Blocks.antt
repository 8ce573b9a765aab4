-- ===== src/Storage/Metadata/Blocks.antt =====
-- src/storage/metadata.rs, `add_block_node` and `get_block_nodes`, and `register` and `query`.
use ll_vpn.Common.{
  ℕ, ◌≡◌, refl, ◌∙◌, inl, inr, ite, Bool, true, false, List, [], ◌∷◌, ◌++◌, Option, none, some,
  ◌==◌, if◌then◌else◌, Option-cases, arith, Bytes, ok, err,
}
use ll_vpn.Common.HashMap
use ll_vpn.Common.HashMap.{HashMap, get-insert, contains_key}
use ll_vpn.NodeId.{bytes_eq, Bytes-discrete}
use ll_vpn.Storage.Chunk.{Hash, FileManifest}
use ll_vpn.Storage.Metadata.{
  BlockLocation, MetadataEntry, already_exists, Entries, MetadataStore, find_block, get_block_nodes,
  has_node, add_node, add_to_block, with_blocks, put_entries, save_if_dirty, save_to_file, change,
  add_block_node, new_entry, upsert, register, query,
}

has_node-append :
    (n node : Bytes) (ns : List Bytes)
    → has_node n (ns ++ (node ∷ [])) ≡ ite (Bytes-discrete node n) true (has_node n ns)
unfolding has_node
has_node-append n node [] = refl
has_node-append n node (x ∷ ns) = ground (arith, has_node-append n node ns)

has_node-add_node :
    (n node : Bytes) (ns : List Bytes)
    → has_node n (add_node node ns) ≡ ite (Bytes-discrete node n) true (has_node n ns)
unfolding add_node
has_node-add_node n node ns = ground (arith, has_node-append n node ns)

-- Whether a block of a list is at a node.
abbrev pub at_node : ℕ → Bytes → List BlockLocation → Bool
at_node j n bs = elim (find_block j bs) [ none ↦ false | some b ↦ has_node n b.nodes ]

at_node-add_to_block :
    (now i j : ℕ) (node n : Bytes) (bs : List BlockLocation)
    → at_node j n (add_to_block now i node bs)
      ≡ (if i == j then ite (Bytes-discrete node n) true (at_node j n bs) else at_node j n bs)
unfolding add_to_block find_block
at_node-add_to_block now i j node n [] = unfold has_node in ground arith
at_node-add_to_block now i j node n (b ∷ bs) =
    ground (arith, at_node-add_to_block now i j node n bs, has_node-add_node n node b.nodes)

pub put_entries-entries :
    (writes : Bool) (e : Entries) (s : MetadataStore) → (put_entries writes e s).entries ≡ e
unfolding put_entries save_if_dirty save_to_file
put_entries-entries true e s = refl
put_entries-entries false e s = refl

-- Whether a block of a file is at a node, as `get_block_nodes` tells.
abbrev pub stored_at : Bytes → ℕ → Bytes → MetadataStore → Bool
stored_at file j n s = has_node n (get_block_nodes file j s)

stored_at-entry :
    (file : Bytes) (j : ℕ) (n : Bytes) (s : MetadataStore)
    → stored_at file j n s
      ≡ elim (HashMap.get file s.entries) [ none ↦ false | some e ↦ at_node j n e.meta.blocks ]
unfolding get_block_nodes has_node
stored_at-entry file j n s = elim (Option-cases (HashMap.get file s.entries)) [
  | inl missing ↦ ground (arith, missing)
  | inr (e, here) ↦ ground (arith, here)
]

-- What `change` leaves of an entry that is there.
changed-entries :
    (writes : Bool) (now : ℕ) (name : Bytes) (f : MetadataEntry → MetadataEntry) (s : MetadataStore)
    (e : MetadataEntry)
    → HashMap.get name s.entries ≡ some e
    → ((change writes now name f s).1 ≡ ok tt)
      × ((change writes now name f s).0.entries ≡ HashMap.insert name (f e) s.entries)
unfolding change
changed-entries writes now name f s e here = (
  ground (arith, here),
  rw (change, here) (put_entries-entries writes (HashMap.insert name (f e) s.entries) s),
)

-- `add_block_node` for a file that is registered succeeds, and afterwards `get_block_nodes` lists exactly
-- what it listed before, for every block of every file, and the new node for the block of the call.
pub add_block_node-get_block_nodes :
    (writes : Bool) (now : ℕ) (name : Bytes) (i : ℕ) (node : Bytes) (s : MetadataStore)
    (e : MetadataEntry)
    → HashMap.get name s.entries ≡ some e
    → ((add_block_node writes now name i node s).1 ≡ ok tt)
      × ((file : Bytes) (j : ℕ) (n : Bytes)
          → stored_at file j n (add_block_node writes now name i node s).0
            ≡ ite
                (Bytes-discrete name file)
                (if i == j
                  then ite (Bytes-discrete node n) true (stored_at file j n s)
                  else stored_at file j n s)
                (stored_at file j n s))
unfolding add_block_node
add_block_node-get_block_nodes writes now name i node s e here =
    let f = with_blocks now (add_to_block now i node) in
    let done = changed-entries writes now name f s e here in
    (
      done.0,
      λ file j n.
          stored_at-entry file j n (change writes now name f s).0
          ∙ rw (done.1) (
              ground (
                arith,
                get-insert file name (f e) s.entries,
                here,
                stored_at-entry file j n s,
                at_node-add_to_block now i j node n e.meta.blocks,
              )),
    )

-- `register` refuses a name that is registered and leaves the store as it is; for another name it succeeds,
-- and `query` then finds the new entry under the name, and every other name as before.
pub register-query :
    (writes : Bool) (now : ℕ) (name : Bytes) (hash : Hash) (size : ℕ)
    (manifest : Option FileManifest) (blocks : List BlockLocation) (source : Bytes)
    (s : MetadataStore)
    → ((e : MetadataEntry)
        → query name s ≡ some e
        → register writes now name hash size manifest blocks source s
          ≡ (s, err (already_exists name)))
      × (query name s ≡ none
          → ((register writes now name hash size manifest blocks source s).1 ≡ ok tt)
            × ((other : Bytes)
                → query other (register writes now name hash size manifest blocks source s).0
                  ≡ ite
                      (Bytes-discrete name other)
                      (some (new_entry now name hash size manifest blocks source))
                      (query other s)))
unfolding register upsert query
register-query writes now name hash size manifest blocks source s = (
  λ e here. ground (arith, here),
  λ free. (
    ground (arith, free),
    λ other.
        let e = new_entry now name hash size manifest blocks source in
        ground (
          arith,
          free,
          put_entries-entries writes (HashMap.insert name e s.entries) s,
          get-insert other name e s.entries,
        ),
  ),
)
