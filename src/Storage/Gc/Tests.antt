-- ===== src/Storage/Gc/Tests.antt =====
-- src/storage/gc.rs: a store with two blocks, of which one version refers to one.
use ll_vpn.Common.{ℕ, ◌≡◌, ◌↔◌, refl, false, [], ◌∷◌, none, ℕ_discrete}
use ll_vpn.Common.HashMap
use ll_vpn.Common.HashMap.{keys, retain}
use ll_vpn.Common.Sorting.{sort_by, insert_by}
use ll_vpn.NodeId.{bytes_eq, Bytes-discrete}
use ll_vpn.Storage.Version
use ll_vpn.Storage.Version.Manager.{VersionManager, list_versions, new_entry}
use ll_vpn.Storage.Metadata.{BlockLocation, MetadataStore, query, list_files}
use ll_vpn.Storage.Gc.{
  collect, collect_referenced_blocks, collect_all_metadata_blocks, insert_chunks, insert_versions,
  insert_files, insert_blocks, insert_entries, blocks_of, difference, storage_stats,
}
use ll_vpn.Storage.Gc.Sets.{IsReferenced, IsListed}
use ll_vpn.Storage.Gc.Collect.{Contains, collect_iff}

abbrev block : ℕ → BlockLocation
block n = record { hash = n ∷ []; index = n; nodes = []; last_synced = 0 }

abbrev metadata : MetadataStore
metadata = record {
  entries =
      (
        b'f' ∷ [],
        record {
          meta = record {
            name = b'f' ∷ [];
            file_hash = [];
            file_size = 8;
            blocks = block 0 ∷ block 1 ∷ [];
            created_at = 0;
            updated_at = 0;
            source_node = [];
            encrypted = false;
          };
          manifest = none;
        },
      )
      ∷ [];
  dirty = false;
  file = none;
}

abbrev versions : VersionManager
versions = record {
  store = record {
    files =
        (
          b'f' ∷ [],
          record {
            file_name = b'f' ∷ [];
            versions =
                new_entry 0 0
                  (record {
                    file_hash = [];
                    file_size = 4;
                    chunks =
                        record { hash = 1 ∷ []; index = 0; offset = 0; size = 4 }
                        ∷ record { hash = 7 ∷ []; index = 1; offset = 4; size = 4 }
                        ∷ [];
                    chunk_size = 4;
                  })
                  []
                ∷ [];
          },
        )
        ∷ [];
  };
  seq_counter = 1;
  dirty = false;
  dirty_held = false;
  file = none;
}

collect_test : (collect versions metadata).unreferenced_hashes ≡ (0 ∷ []) ∷ []
unfolding collect collect_referenced_blocks collect_all_metadata_blocks insert_chunks
    insert_versions insert_files insert_blocks insert_entries blocks_of difference HashMap.get
    HashMap.insert keys retain query list_files list_versions new_entry Version.list_files sort_by
    insert_by Bytes-discrete ℕ_discrete
collect_test = refl

-- The statistics miss the block, since the version refers to another one that no metadata list.
storage_stats_test : (storage_stats versions metadata).unreferenced_blocks ≡ 0
unfolding storage_stats collect_referenced_blocks collect_all_metadata_blocks insert_chunks
    insert_versions insert_files insert_blocks insert_entries blocks_of HashMap.get HashMap.insert
    keys query list_files list_versions new_entry Version.list_files sort_by insert_by
    Bytes-discrete ℕ_discrete
storage_stats_test = refl

collect_iff_example :
    Contains (1 ∷ []) (collect versions metadata).unreferenced_hashes
    ↔ IsListed (1 ∷ []) metadata × (¬ IsReferenced (1 ∷ []) versions)
collect_iff_example = collect_iff versions metadata (1 ∷ [])
