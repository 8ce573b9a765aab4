-- ===== src/Storage/Metadata/Tests.antt =====
-- src/storage/metadata.rs: a store with one file, and what another node knows of it.
use ll_vpn.Common.{
  ℕ, ◌≡◌, refl, true, false, ite, [], ◌∷◌, none, some, ok, ◌==◌, if◌then◌else◌, arith, Bytes,
  ℕ_discrete,
}
use ll_vpn.Common.HashMap
use ll_vpn.NodeId.{bytes_eq, Bytes-discrete}
use ll_vpn.Storage.Chunk.{Hash}
use ll_vpn.Storage.Metadata.{
  MetadataEntry, MetadataStore, add_block_node, query, should_merge, sync_from,
}
use ll_vpn.Storage.Metadata.Blocks.{stored_at, add_block_node-get_block_nodes}
use ll_vpn.Storage.Metadata.Sync.{sync_from-settles, sync_from_shadows}

abbrev photo : Bytes
photo = b'p' ∷ []

abbrev node : Bytes
node = b'n' ∷ []

abbrev entry_of : ℕ → Hash → MetadataEntry
entry_of updated_at hash = record {
  meta = record {
    name = photo;
    file_hash = hash;
    file_size = 8;
    blocks = record { hash = hash; index = 0; nodes = node ∷ []; last_synced = 10 } ∷ [];
    created_at = 10;
    updated_at = updated_at;
    source_node = node;
    encrypted = false;
  };
  manifest = none;
}

abbrev store : MetadataStore
store = record { entries = (photo, entry_of 10 (1 ∷ [])) ∷ []; dirty = false; file = none }

present_test : HashMap.get photo store.entries ≡ some (entry_of 10 (1 ∷ []))
unfolding HashMap.get Bytes-discrete ℕ_discrete
present_test = refl

add_block_node-get_block_nodes_example :
    ((add_block_node true 20 photo 0 (b'm' ∷ []) store).1 ≡ ok tt)
    × ((file : Bytes) (j : ℕ) (n : Bytes)
        → stored_at file j n (add_block_node true 20 photo 0 (b'm' ∷ []) store).0
          ≡ ite
              (Bytes-discrete photo file)
              (if 0 == j
                then ite (Bytes-discrete (b'm' ∷ []) n) true (stored_at file j n store)
                else stored_at file j n store)
              (stored_at file j n store))
add_block_node-get_block_nodes_example =
    add_block_node-get_block_nodes true 20 photo 0 (b'm' ∷ []) store (entry_of 10 (1 ∷ []))
      present_test

abbrev first_byte : Bytes → Hash → ℕ
first_byte name [] = 0
first_byte name (b ∷ hash) = b

sync_from-settles_example :
    sync_from true first_byte 200
      (entry_of 90 (2 ∷ []) ∷ [])
      (sync_from true first_byte 100 (entry_of 90 (2 ∷ []) ∷ []) store).0
    ≡ ((sync_from true first_byte 100 (entry_of 90 (2 ∷ []) ∷ []) store).0, 0)
sync_from-settles_example =
    sync_from-settles first_byte true 100 200 (entry_of 90 (2 ∷ []) ∷ []) store (omega arith)
      (tt, tt) (omega arith, tt)

wins_test : should_merge first_byte (query photo store) (entry_of 50 (2 ∷ [])) ≡ true
unfolding should_merge query HashMap.get Bytes-discrete ℕ_discrete
wins_test = refl

-- What was written at 70 is refused after a record of 50 was merged at 100.
sync_from_shadows_example :
    sync_from true first_byte 300
      (entry_of 70 (3 ∷ []) ∷ [])
      (sync_from true first_byte 100 (entry_of 50 (2 ∷ []) ∷ []) store).0
    ≡ ((sync_from true first_byte 100 (entry_of 50 (2 ∷ []) ∷ []) store).0, 0)
sync_from_shadows_example =
    sync_from_shadows first_byte true 100 300 (entry_of 50 (2 ∷ [])) (entry_of 70 (3 ∷ [])) store
      refl wins_test (omega arith) (omega arith)
