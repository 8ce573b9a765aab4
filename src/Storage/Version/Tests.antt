-- ===== src/Storage/Version/Tests.antt =====
-- src/storage/version.rs: snapshots of two files, and pruning.
use ll_vpn.Common.{
  ℕ, ◌<◌, ◌≡◌, ◌↔◌, refl, true, false, [], ◌∷◌, none, some, ok, length, arith, Bytes,
}
use ll_vpn.Common.HashMap
use ll_vpn.Common.Decimal.{padded, decimal}
use ll_vpn.NodeId.{bytes_eq}
use ll_vpn.Storage.Chunk.{FileManifest}
use ll_vpn.Storage.Calendar.{civil_date_from_days, date_in_era, format_timestamp}
use ll_vpn.Storage.Version.{FileVersions, VersionEntry, VersionStore}
use ll_vpn.Storage.Version.Manager.{
  VersionManager, new_entry, create_snapshot, restore_version, prune_versions, list_versions,
}
use ll_vpn.Storage.Version.Restore.{IsNumbered, Snapshot, create_each, restore-create_snapshot}
use ll_vpn.Storage.Version.Pruning.{prune_versions_blocks}

epoch_test :
    format_timestamp 0
    ≡ b'1' ∷ b'9' ∷ b'7' ∷ b'0' ∷ b'0' ∷ b'1' ∷ b'0' ∷ b'1' ∷ b'0' ∷ b'0' ∷ b'0' ∷ b'0' ∷ b'0'
      ∷ b'0' ∷ []
unfolding format_timestamp civil_date_from_days date_in_era padded decimal
epoch_test = refl

leap_day_test : civil_date_from_days 19782 ≡ (2024, 2, 29)
unfolding civil_date_from_days date_in_era
leap_day_test = refl

abbrev manifest : ℕ → FileManifest
manifest n = record { file_hash = n ∷ []; file_size = n; chunks = []; chunk_size = 4 }

abbrev report_name : Bytes
report_name = b'r' ∷ []

abbrev snapshot : ℕ → Snapshot
snapshot n = record { now = 100; name = report_name; manifest = manifest n; annotation = [] }

abbrev empty : VersionManager
empty = record {
  store = record { files = [] };
  seq_counter = 0;
  dirty = false;
  dirty_held = false;
  file = none;
}

empty-IsNumbered : IsNumbered empty
unfolding list_versions HashMap.get
empty-IsNumbered name = tt

restore-create_snapshot_example :
    (m' : VersionManager) × (id : Bytes) × (m'' : VersionManager) × (create_snapshot true 100
        report_name
        (manifest 1)
        []
        empty
      ≡ some (m', id))
    × (create_each true (snapshot 2 ∷ snapshot 3 ∷ []) m' ≡ some m'')
    × (restore_version report_name id m'' ≡ ok (manifest 1))
restore-create_snapshot_example =
    restore-create_snapshot true (snapshot 1) (snapshot 2 ∷ snapshot 3 ∷ []) empty refl
      empty-IsNumbered (omega arith)

abbrev version : ℕ → VersionEntry
version n = new_entry 100 n (manifest n) []

abbrev two_files : VersionStore
two_files = record {
  files =
      (report_name, record { file_name = report_name; versions = version 2 ∷ version 0 ∷ [] })
      ∷ (b'a' ∷ [], record { file_name = b'a' ∷ []; versions = version 1 ∷ [] })
      ∷ [];
}

abbrev loaded : VersionManager
loaded = record empty { store = two_files; file = some two_files }

prune_versions_blocks_example : (prune_versions true report_name 1 loaded ≡ none) ↔ (
    (f : FileVersions) × (HashMap.get report_name loaded.store.files ≡ some f)
    × (1 < length f.versions))
prune_versions_blocks_example = prune_versions_blocks true report_name 1 loaded
