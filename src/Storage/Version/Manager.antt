-- ===== src/Storage/Version/Manager.antt =====
-- src/storage/version.rs, `VersionManager`. A call that never returns, since it waits for a lock that its
-- own caller holds, is `none`. Every `RwLock` is free between two calls, and no lock is poisoned, which
-- takes a panic of another thread.
use ll_vpn.Common.{
  ℕ, ◌+◌, ◌%◌, ◌^◌, Bool, true, false, not, List, [], Option, none, some, ◌==◌, if◌then◌else◌,
  Result, ok, err, Bytes,
}
use ll_vpn.Common.HashMap
use ll_vpn.NodeId.{bytes_eq}
use ll_vpn.Session.{u64}
use ll_vpn.Storage.Chunk.{FileManifest}
use ll_vpn.Storage.Calendar.{format_timestamp, version_id}
use ll_vpn.Storage.Version.{
  VersionEntry, FileVersions, VersionStore, new_store, push, latest, is_empty, prune, prune_all,
  with_file,
}
use ll_vpn.Storage.Version

-- The texts of errors.
pub data VersionError : Type 0 where
  version_not_found : Bytes → Bytes → VersionError
  no_versions : Bytes → VersionError
  write_failed : VersionError

-- `struct VersionManager`, with what stands in the file at `db_path`. `dirty_held` says whether the
-- running call holds the guard that `dirty.write()` gave it.
pub record VersionManager : Type 0 where
  pub store : VersionStore
  pub seq_counter : ℕ
  pub dirty : Bool
  pub dirty_held : Bool
  pub file : Option VersionStore

-- `new` on an empty path, and `load_from_file` on a path with a text that parses.
unfoldable pub load_from_file : Option VersionStore → VersionManager
load_from_file file = record {
  store = elim file [ none ↦ new_store | some s ↦ s ];
  seq_counter = 0;
  dirty = false;
  dirty_held = false;
  file = file;
}

unfoldable pub new_entry : ℕ → ℕ → FileManifest → Bytes → VersionEntry
new_entry now seq manifest annotation = record {
  version_id = version_id (format_timestamp now) seq;
  timestamp = format_timestamp now;
  unix_secs = now;
  seq = seq;
  manifest = manifest;
  annotation = annotation;
}

-- The manager with the new entry, before it is saved.
unfoldable pub add_entry : ℕ → Bytes → FileManifest → Bytes → VersionManager → VersionManager
unfolding new_entry
add_entry now name manifest annotation m = record m {
  store =
      with_file name (push (new_entry now (m.seq_counter % 2 ^ 32) manifest annotation)) m.store;
  seq_counter = u64 (m.seq_counter + 1);
}

-- `writes` says whether the file system takes the text.
module _ (writes : Bool) where
  -- `dirty.write()` waits forever if this call holds the guard already.
  unfoldable pub save : VersionManager → Option (VersionManager × Result VersionError (Unit {0}))
  save m =
      if writes
      then (if m.dirty_held
          then none
          else some (record m { dirty = false; file = some m.store }, ok tt))
      else some (m, err write_failed)

  unfoldable pub save_if_dirty : VersionManager → Option VersionManager
  unfolding save
  save_if_dirty m =
      if m.dirty_held
      then none
      else if m.dirty
      then elim (save m) [ none ↦ none | some done ↦ some done.0 ]
      else some m

  -- A block `{ let mut dirty = ..; *dirty = true; }` gives the guard back at its end, before the save.
  unfoldable pub mark_and_save : VersionManager → Option VersionManager
  unfolding save_if_dirty
  mark_and_save m = save_if_dirty (record m { dirty = true })

  -- Where the save stands inside the block, the guard is still held.
  unfoldable pub mark_and_save_held : VersionManager → Option VersionManager
  unfolding save_if_dirty
  mark_and_save_held m = elim (save_if_dirty (record m { dirty = true; dirty_held = true })) [
    | none ↦ none
    | some m' ↦ some (record m' { dirty_held = false })
  ]

  unfoldable pub create_snapshot :
      ℕ → Bytes → FileManifest → Bytes → VersionManager → Option (VersionManager × Bytes)
  unfolding mark_and_save add_entry
  create_snapshot now name manifest annotation m =
      elim (mark_and_save (add_entry now name manifest annotation m)) [
        | none ↦ none
        | some m' ↦ some (m', version_id (format_timestamp now) (m.seq_counter % 2 ^ 32))
      ]

  unfoldable pub prune_versions :
      Bytes → ℕ → VersionManager → Option (VersionManager × Result VersionError ℕ)
  unfolding mark_and_save_held
  prune_versions name max_versions m = elim (HashMap.get name m.store.files) [
    | none ↦ some (m, err (no_versions name))
    | some f ↦
        let pruned = prune max_versions f in
        let m' = record m {
          store = record { files = HashMap.insert name pruned.0 m.store.files };
        } in
        if pruned.1 == 0
        then some (m', ok pruned.1)
        else elim (mark_and_save_held m') [ none ↦ none | some done ↦ some (done, ok pruned.1) ]
  ]

  unfoldable pub prune_all_versions :
      ℕ → VersionManager → Option (VersionManager × Result VersionError ℕ)
  unfolding mark_and_save_held
  prune_all_versions max_versions m =
      let pruned = prune_all max_versions m.store in
      let m' = record m { store = pruned.0 } in
      if pruned.1 == 0
      then some (m', ok pruned.1)
      else elim (mark_and_save_held m') [ none ↦ none | some done ↦ some (done, ok pruned.1) ]

  unfoldable pub remove_file :
      Bytes → VersionManager → Option (VersionManager × Result VersionError (Unit {0}))
  unfolding mark_and_save
  remove_file name m = elim (HashMap.get name m.store.files) [
    | none ↦ some (m, err (no_versions name))
    | some f ↦
        elim (mark_and_save
          (record m { store = record { files = HashMap.remove name m.store.files } })) [
            | none ↦ none
            | some m' ↦ some (m', ok tt)
          ]
  ]

unfoldable pub list_versions : Bytes → VersionManager → List VersionEntry
list_versions name m = elim (HashMap.get name m.store.files) [ none ↦ [] | some f ↦ f.versions ]

unfoldable pub get_version : Bytes → Bytes → VersionManager → Option VersionEntry
get_version name id m = elim (HashMap.get name m.store.files) [
  | none ↦ none
  | some f ↦ Version.get id f
]

unfoldable pub latest_version : Bytes → VersionManager → Option VersionEntry
latest_version name m = elim (HashMap.get name m.store.files) [ none ↦ none | some f ↦ latest f ]

unfoldable pub restore_version : Bytes → Bytes → VersionManager → Result VersionError FileManifest
unfolding get_version
restore_version name id m = elim (get_version name id m) [
  | none ↦ err (version_not_found id name)
  | some v ↦ ok v.manifest
]

unfoldable pub has_versions : Bytes → VersionManager → Bool
has_versions name m = elim (HashMap.get name m.store.files) [
  | none ↦ false
  | some f ↦ not (is_empty f)
]
