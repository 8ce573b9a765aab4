-- ===== src/Storage/Metadata/Sync.antt =====
-- src/storage/metadata.rs, `sync_from`: merging what another node knows.
use ll_vpn.Common.{
  ℕ, ◌+◌, ◌^◌, ◌≤◌, ◌<◌, ◌≡◌, ◌≢◌, refl, inl, inr, Bool, true, false, List, [], ◌∷◌, some,
  Bool-cases, All, if_cases, arith, Bytes,
}
use ll_vpn.Common.HashMap
use ll_vpn.Common.HashMap.{HashMap, get-insert}
use ll_vpn.NodeId.{bytes_eq}
use ll_vpn.Storage.Chunk.{Hash}
use ll_vpn.Storage.Metadata.Blocks.{put_entries-entries}
use ll_vpn.Storage.Metadata.{
  MetadataEntry, Entries, MetadataStore, hash_entry, should_merge, stamped, merge_one, merge_each,
  sync_from, query, conflict_window_secs,
}

module _ (hash_name_hash : Bytes → Hash → ℕ) (now : ℕ) where
  abbrev Refuses : Entries → MetadataEntry → Type 0
  Refuses entries r = should_merge hash_name_hash (HashMap.get r.meta.name entries) r ≡ false

  stamped-refuses :
      (r : MetadataEntry)
      → now + conflict_window_secs < 2 ^ 64
      → r.meta.updated_at ≤ now + conflict_window_secs
      → should_merge hash_name_hash (some (stamped now r)) r ≡ false
  unfolding should_merge stamped hash_entry
  stamped-refuses r room past = ground arith

  get-inserted :
      (r e : MetadataEntry) (entries : Entries)
      → HashMap.get r.meta.name (HashMap.insert r.meta.name e entries) ≡ some e
  get-inserted r e entries = ground (arith, get-insert r.meta.name r.meta.name e entries)

  get-inserted_other :
      (r other e : MetadataEntry) (entries : Entries)
      → other.meta.name ≢ r.meta.name
      → HashMap.get r.meta.name (HashMap.insert other.meta.name e entries)
        ≡ HashMap.get r.meta.name entries
  get-inserted_other r other e entries differ =
      ground (arith, get-insert r.meta.name other.meta.name e entries, differ)

  -- An entry that is not from the future is refused once it has been looked at.
  merge_one-Refuses :
      (r : MetadataEntry) (entries : Entries)
      → now + conflict_window_secs < 2 ^ 64
      → r.meta.updated_at ≤ now + conflict_window_secs
      → Refuses (merge_one hash_name_hash now r entries).0 r
  unfolding merge_one
  merge_one-Refuses r entries room past =
      elim (Bool-cases (should_merge hash_name_hash (HashMap.get r.meta.name entries) r)) [
        | inl merged ↦
            rw (merge_one, merged, get-inserted r (stamped now r) entries)
              (stamped-refuses r room past)
        | inr refused ↦ rw (merge_one, refused) refused
      ]

  -- A turn for another name changes nothing for this one.
  other-Refuses :
      (r other : MetadataEntry) (entries : Entries)
      → other.meta.name ≢ r.meta.name
      → Refuses entries r
      → Refuses (merge_one hash_name_hash now other entries).0 r
  unfolding merge_one
  other-Refuses r other entries differ h =
      if_cases (λ (e : Entries × Bool). Refuses e.0 r)
        (should_merge hash_name_hash (HashMap.get other.meta.name entries) other)
        (HashMap.insert other.meta.name (stamped now other) entries, true) (entries, false)
        (λ merged. rw (get-inserted_other r other (stamped now other) entries differ) h)
        (λ refused. h)

  -- The names of a list of entries differ.
  abbrev pub IsNameOf : MetadataEntry → List MetadataEntry → Type 0
  IsNameOf r rs = All (λ other. other.meta.name ≢ r.meta.name) rs

  abbrev pub DistinctNames : List MetadataEntry → Type 0
  DistinctNames [] = Unit {0}
  DistinctNames (r ∷ rs) = IsNameOf r rs × DistinctNames rs

  merge_each-Refuses :
      (r : MetadataEntry) (rs : List MetadataEntry) (entries : Entries)
      → IsNameOf r rs
      → Refuses entries r
      → Refuses (merge_each hash_name_hash now rs entries).0 r
  unfolding merge_each
  merge_each-Refuses r [] entries differ h = h
  merge_each-Refuses r (other ∷ rs) entries differ h =
      merge_each-Refuses r rs (merge_one hash_name_hash now other entries).0 differ.1
        (other-Refuses r other entries differ.0 h)

  All-merge_each :
      (rs : List MetadataEntry) (entries : Entries)
      → now + conflict_window_secs < 2 ^ 64
      → DistinctNames rs
      → All (λ r. r.meta.updated_at ≤ now + conflict_window_secs) rs
      → All (Refuses (merge_each hash_name_hash now rs entries).0) rs
  unfolding merge_each
  All-merge_each [] entries room distinct past = tt
  All-merge_each (r ∷ rs) entries room distinct past = (
    merge_each-Refuses r rs (merge_one hash_name_hash now r entries).0 distinct.0
        (merge_one-Refuses r entries room past.0),
    All-merge_each rs (merge_one hash_name_hash now r entries).0 room distinct.1 past.1,
  )

module _ (hash_name_hash : Bytes → Hash → ℕ) where
  -- A list that is refused leaves everything as it is.
  merge_each_refused :
      (now : ℕ) (rs : List MetadataEntry) (entries : Entries)
      → All (Refuses hash_name_hash now entries) rs
      → merge_each hash_name_hash now rs entries ≡ (entries, 0)
  unfolding merge_each merge_one
  merge_each_refused now [] entries h = refl
  merge_each_refused now (r ∷ rs) entries h = rw (h.0, merge_each_refused now rs entries h.1)

  -- Where nothing is merged, nothing changes.
  merge_each_none :
      (now : ℕ) (rs : List MetadataEntry) (entries : Entries)
      → (merge_each hash_name_hash now rs entries).1 ≡ 0
      → (merge_each hash_name_hash now rs entries).0 ≡ entries
  unfolding merge_each merge_one
  merge_each_none now [] entries h = refl
  merge_each_none now (r ∷ rs) entries h =
      elim (Bool-cases (should_merge hash_name_hash (HashMap.get r.meta.name entries) r)) [
        | inl merged ↦ absurd (ground (arith, merged, h))
        | inr refused ↦ ground (arith, refused, h, merge_each_none now rs entries)
      ]

  sync_from-entries :
      (writes : Bool) (now : ℕ) (rs : List MetadataEntry) (s : MetadataStore)
      → (sync_from writes hash_name_hash now rs s).0.entries
        ≡ (merge_each hash_name_hash now rs s.entries).0
  unfolding sync_from
  sync_from-entries writes now rs s = ground (
    arith,
    merge_each_none now rs s.entries,
    put_entries-entries writes (merge_each hash_name_hash now rs s.entries).0 s,
  )

  sync_from_refused :
      (writes : Bool) (now : ℕ) (rs : List MetadataEntry) (s : MetadataStore)
      → All (Refuses hash_name_hash now s.entries) rs
      → sync_from writes hash_name_hash now rs s ≡ (s, 0)
  unfolding sync_from
  sync_from_refused writes now rs s h = ground (arith, merge_each_refused now rs s.entries h)

  -- A second `sync_from` with the same list, at whatever time, merges nothing and leaves the store as it
  -- is, if the names of the list differ and no entry is from more than 5 seconds after the first call.
  pub sync_from-settles :
      (writes : Bool) (now later : ℕ) (rs : List MetadataEntry) (s : MetadataStore)
      → now + conflict_window_secs < 2 ^ 64
      → DistinctNames hash_name_hash now rs
      → All (λ r. r.meta.updated_at ≤ now + conflict_window_secs) rs
      → sync_from writes hash_name_hash later rs (sync_from writes hash_name_hash now rs s).0
        ≡ ((sync_from writes hash_name_hash now rs s).0, 0)
  sync_from-settles writes now later rs s room distinct past =
      sync_from_refused writes later rs (sync_from writes hash_name_hash now rs s).0 (
        rw (sync_from-entries writes now rs s)
          (All-merge_each hash_name_hash now rs s.entries room distinct past))

  -- A record that wins is merged and stamped with the time of the merge, which is more than 5 seconds before
  -- the end of the range of `u64`, instead of its own. From then on, and at whatever time it comes, another
  -- record of that name is refused if it was updated more than 5 seconds before the merge, although it may
  -- have been updated long after the merged one.
  pub sync_from_shadows :
      (writes : Bool) (now later : ℕ) (merged newer : MetadataEntry) (s : MetadataStore)
      → newer.meta.name ≡ merged.meta.name
      → should_merge hash_name_hash (query merged.meta.name s) merged ≡ true
      → newer.meta.updated_at + conflict_window_secs < now
      → now + conflict_window_secs < 2 ^ 64
      → sync_from writes hash_name_hash later
          (newer ∷ [])
          (sync_from writes hash_name_hash now (merged ∷ []) s).0
        ≡ ((sync_from writes hash_name_hash now (merged ∷ []) s).0, 0)
  sync_from_shadows writes now later merged newer s same wins before room =
      sync_from_refused writes later (newer ∷ [])
        (sync_from writes hash_name_hash now (merged ∷ []) s).0
        (rw (sync_from-entries writes now (merged ∷ []) s) (shadowed, tt))
    where
      old_refused : should_merge hash_name_hash (some (stamped now merged)) newer ≡ false
      old_refused = unfold should_merge stamped in ground arith

      shadowed :
          Refuses hash_name_hash now (merge_each hash_name_hash now (merged ∷ []) s.entries).0 newer
      shadowed =
          unfold merge_each merge_one query in
          ground (
            arith,
            wins,
            same,
            old_refused,
            get-inserted hash_name_hash now merged (stamped now merged) s.entries,
          )
