-- ===== src/Storage/Version/Restore.antt =====
-- src/storage/version.rs: snapshots and what is restored from them later.
use ll_vpn.Common.{
  ℕ, ◌+◌, ◌%◌, ◌/◌, ◌^◌, ◌<◌, ◌≡◌, refl, ap, ◌∙◌, sym, inl, inr, ite, ite_cases, Bool, true, false,
  List, [], ◌∷◌, ◌++◌, Option, none, some, length, ◌==◌, if◌then◌else◌, Option-cases, Bool-cases,
  All, All-append, arith, Bytes, ok, err, subst,
}
use ll_vpn.Common.HashMap
use ll_vpn.Common.HashMap.{HashMap, get-insert}
use ll_vpn.Common.Decimal.{IsDigit, padded, padded-IsDigit, number_of, number_of-padded}
use ll_vpn.NodeId.{bytes_eq, Bytes-discrete}
use ll_vpn.Session.{u64}
use ll_vpn.Storage.Chunk.{FileManifest}
use ll_vpn.Storage.Calendar.{civil_date_from_days, format_timestamp, version_id, dash}
use ll_vpn.Storage.Version.{
  VersionEntry, FileVersions, VersionStore, new_file, push, with_file, find_id,
}
use ll_vpn.Storage.Version
use ll_vpn.Storage.Version.Manager.{
  VersionManager, version_not_found, save, save_if_dirty, mark_and_save, new_entry, add_entry,
  create_snapshot, list_versions, get_version, restore_version,
}

after_dash : Bytes → Bytes
after_dash [] = []
after_dash (b ∷ bs) = let rest = after_dash bs in if b == dash then bs else rest

-- The sequence number in an identifier.
unfoldable pub seq_of : Bytes → ℕ
unfolding after_dash
seq_of id = number_of (after_dash id)

after_dash-append : (ds bs : Bytes) → All IsDigit ds → after_dash (ds ++ (dash ∷ bs)) ≡ bs
unfolding after_dash
after_dash-append [] bs h = refl
after_dash-append (d ∷ ds) bs h = ground (arith, h.0, after_dash-append ds bs h.1)

format_timestamp-IsDigit : (now : ℕ) → All IsDigit (format_timestamp now)
unfolding format_timestamp
format_timestamp-IsDigit now =
    let date = civil_date_from_days (now / 86400) in
    All-append IsDigit (padded 4 date.0) _ (padded-IsDigit 4 date.0) (
      All-append IsDigit (padded 2 date.1) _ (padded-IsDigit 2 date.1) (
        All-append IsDigit (padded 2 date.2) _ (padded-IsDigit 2 date.2) (
          All-append IsDigit (padded 2 (now % 86400 / 3600)) _ (padded-IsDigit 2 _) (
            All-append IsDigit (padded 2 (now % 86400 % 3600 / 60)) _ (padded-IsDigit 2 _)
              (padded-IsDigit 2 (now % 86400 % 60))))))

pub seq_of-version_id :
    (now seq : ℕ) → seq < 2 ^ 32 → seq_of (version_id (format_timestamp now) seq) ≡ seq
unfolding seq_of version_id
seq_of-version_id now seq h =
    ap number_of
      (after_dash-append (format_timestamp now) (padded 4 seq) (format_timestamp-IsDigit now))
    ∙ number_of-padded 4 seq (omega arith)

restore-find :
    (name id : Bytes) (m : VersionManager)
    → restore_version name id m ≡ elim (find_id id (list_versions name m)) [
      | none ↦ err (version_not_found id name)
      | some v ↦ ok v.manifest
    ]
unfolding restore_version get_version list_versions Version.get find_id
restore-find name id m = elim (Option-cases (HashMap.get name m.store.files)) [
  | inl e ↦ ground (arith, e)
  | inr (f, e) ↦ ground (arith, e)
]

module _ (now : ℕ) (name : Bytes) (manifest : FileManifest) (annotation : Bytes) where
  abbrev entry_for : VersionManager → VersionEntry
  entry_for m = new_entry now (m.seq_counter % 2 ^ 32) manifest annotation

  list_versions-add_entry :
      (other : Bytes) (m : VersionManager)
      → list_versions other (add_entry now name manifest annotation m)
        ≡ ite
            (Bytes-discrete name other)
            (entry_for m ∷ list_versions name m)
            (list_versions other m)
  unfolding add_entry list_versions with_file new_file push
  list_versions-add_entry other m = elim (Option-cases (HashMap.get name m.store.files)) [
    | inl e ↦
        ground (arith, e, get-insert other name (push (entry_for m) (new_file name)) m.store.files)
    | inr (f, e) ↦ ground (arith, e, get-insert other name (push (entry_for m) f) m.store.files)
  ]

-- The identifiers of the versions at hand carry numbers below the counter.
abbrev pub IsNumbered : VersionManager → Type 0
IsNumbered m =
    (name : Bytes) → All (λ v. seq_of v.version_id < m.seq_counter) (list_versions name m)

below_more :
    (c : ℕ) (vs : List VersionEntry)
    → All (λ v. seq_of v.version_id < c) vs
    → All (λ v. seq_of v.version_id < c + 1) vs
below_more c [] h = tt
below_more c (v ∷ vs) h = (omega (arith, h.0), below_more c vs h.1)

-- `create_snapshot` as a value: the manager with the new entry, marked, and saved if the file system takes
-- the text.
unfoldable pub saved : Bool → VersionManager → VersionManager
saved true m = record m { dirty = false; file = some m.store }
saved false m = record m { dirty = true }

create_snapshot_returns :
    (writes : Bool) (now : ℕ) (name : Bytes) (manifest : FileManifest) (annotation : Bytes)
    (m : VersionManager)
    → m.dirty_held ≡ false
    → create_snapshot writes now name manifest annotation m
      ≡ some (
        saved writes (add_entry now name manifest annotation m),
        version_id (format_timestamp now) (m.seq_counter % 2 ^ 32),
      )
unfolding create_snapshot mark_and_save save_if_dirty save saved add_entry
create_snapshot_returns true now name manifest annotation m free = rw free
create_snapshot_returns false now name manifest annotation m free = rw free

list_versions-saved :
    (writes : Bool) (name : Bytes) (m : VersionManager)
    → list_versions name (saved writes m) ≡ list_versions name m
unfolding list_versions saved
list_versions-saved true name m = refl
list_versions-saved false name m = refl

-- A call of `create_snapshot`.
pub record Snapshot : Type 0 where
  pub now : ℕ
  pub name : Bytes
  pub manifest : FileManifest
  pub annotation : Bytes

unfoldable pub create_each : Bool → List Snapshot → VersionManager → Option VersionManager
create_each writes [] m = some m
create_each writes (s ∷ later) m =
    elim (create_snapshot writes s.now s.name s.manifest s.annotation m) [
      | none ↦ none
      | some done ↦ create_each writes later done.0
    ]

-- What a snapshot leaves of the manager, its file aside.
module _ (writes : Bool) (s : Snapshot) (m : VersionManager) where
  abbrev after : VersionManager
  after = saved writes (add_entry s.now s.name s.manifest s.annotation m)

  after_counter : after.seq_counter ≡ u64 (m.seq_counter + 1)
  unfolding saved add_entry
  after_counter = elim (Bool-cases writes) [ inl e ↦ rw e | inr e ↦ rw e ]

  after_free : m.dirty_held ≡ false → after.dirty_held ≡ false
  unfolding saved add_entry
  after_free h = elim (Bool-cases writes) [ inl e ↦ rw e h | inr e ↦ rw e h ]

  abbrev entry : VersionEntry
  entry = entry_for s.now s.name s.manifest s.annotation m

  after_versions :
      (other : Bytes)
      → list_versions other after
        ≡ ite (Bytes-discrete s.name other) (entry ∷ list_versions s.name m) (list_versions other m)
  after_versions other =
      list_versions-saved writes other (add_entry s.now s.name s.manifest s.annotation m)
      ∙ list_versions-add_entry s.now s.name s.manifest s.annotation other m

  entry_number : m.seq_counter + 1 < 2 ^ 32 → seq_of entry.version_id ≡ m.seq_counter
  unfolding new_entry
  entry_number room = seq_of-version_id s.now (m.seq_counter % 2 ^ 32) (omega arith) ∙ omega arith

  after-IsNumbered : m.seq_counter + 1 < 2 ^ 32 → IsNumbered m → IsNumbered after
  after-IsNumbered room h other =
      rw (after_versions other, after_counter)
        (ite_cases (All (λ v. seq_of v.version_id < u64 (m.seq_counter + 1)))
          (Bytes-discrete s.name other) (entry ∷ list_versions s.name m) (list_versions other m)
          (λ same. (omega (arith, entry_number room), grow s.name)) (λ different. grow other))
    where
      grow :
          (n : Bytes) → All (λ v. seq_of v.version_id < u64 (m.seq_counter + 1)) (list_versions n m)
      grow n =
          subst (λ (c : ℕ). All (λ v. seq_of v.version_id < c) (list_versions n m)) (omega arith)
            (below_more m.seq_counter (list_versions n m) (h n))

  -- A version that was there is found as before.
  after_find :
      (id : Bytes) (other : Bytes)
      → m.seq_counter + 1 < 2 ^ 32
      → seq_of id < m.seq_counter
      → find_id id (list_versions other after) ≡ find_id id (list_versions other m)
  unfolding find_id
  after_find id other room known =
      let new : ¬ (entry.version_id ≡ id) =
        λ e. absurd (omega (arith, ap seq_of e, entry_number room)) in
      elim (Bytes-discrete s.name other) [
        | yes same ↦ ground (arith, after_versions other, new, same)
        | no different ↦ ground (arith, after_versions other, different)
      ]

  -- The entry of the snapshot itself is found.
  after-entry : find_id entry.version_id (list_versions s.name after) ≡ some entry
  unfolding find_id
  after-entry = ground (arith, after_versions s.name)

  after_restore : restore_version s.name entry.version_id after ≡ ok s.manifest
  unfolding new_entry
  after_restore = restore-find s.name entry.version_id after ∙ rw (after-entry) refl

  snapshot_returns :
      m.dirty_held ≡ false
      → create_snapshot writes s.now s.name s.manifest s.annotation m
        ≡ some (after, entry.version_id)
  unfolding new_entry
  snapshot_returns free = create_snapshot_returns writes s.now s.name s.manifest s.annotation m free

  create_each-cons :
      (later : List Snapshot)
      → m.dirty_held ≡ false
      → create_each writes (s ∷ later) m ≡ create_each writes later after
  unfolding create_each
  create_each-cons later free = rw (create_each, snapshot_returns free)

module _ (name id : Bytes) (manifest : FileManifest) (writes : Bool) where
  record Keeps (m : VersionManager) : Type 0 where
    free : m.dirty_held ≡ false
    numbered : IsNumbered m
    known : seq_of id < m.seq_counter
    kept : restore_version name id m ≡ ok manifest

  Keeps-after :
      (s : Snapshot) (m : VersionManager)
      → m.seq_counter + 1 < 2 ^ 32
      → Keeps m
      → Keeps (after writes s m)
  Keeps-after s m room k = record {
    free = after_free writes s m k.free;
    numbered = after-IsNumbered writes s m room k.numbered;
    known = omega (arith, k.known, after_counter writes s m);
    kept =
        restore-find name id (after writes s m)
        ∙ rw (after_find writes s m id name room k.known) (sym (restore-find name id m) ∙ k.kept);
  }

  Keeps-create_each :
      (later : List Snapshot) (m : VersionManager)
      → m.seq_counter + length later < 2 ^ 32
      → Keeps m
      → (m' : VersionManager) × (create_each writes later m ≡ some m')
        × (restore_version name id m' ≡ ok manifest)
  unfolding create_each
  Keeps-create_each [] m room k = (m, refl, k.kept)
  Keeps-create_each (s ∷ later) m room k =
      let rest =
        Keeps-create_each later (after writes s m) (omega (arith, after_counter writes s m))
          (Keeps-after s m (omega arith) k) in
      (rest.0, create_each-cons writes s m later k.free ∙ rest.1, rest.2)

-- `create_snapshot` returns an identifier from which `restore_version` gives back the very manifest after
-- any number of later snapshots of any files, which all return too. The manager's versions carry
-- numbers below its counter, as they do in a manager that starts empty, and the counter stays below
-- 2^32.
pub restore-create_snapshot :
    (writes : Bool) (s : Snapshot) (later : List Snapshot) (m : VersionManager)
    → m.dirty_held ≡ false
    → IsNumbered m
    → m.seq_counter + 1 + length later < 2 ^ 32
    → (m' : VersionManager) × (id : Bytes) × (m'' : VersionManager) × (create_snapshot writes s.now
          s.name s.manifest s.annotation m
        ≡ some (m', id))
      × (create_each writes later m' ≡ some m'')
      × (restore_version s.name id m'' ≡ ok s.manifest)
restore-create_snapshot writes s later m free numbered room =
    let rest =
      Keeps-create_each s.name (entry writes s m).version_id s.manifest writes later
        (after writes s m) (omega (arith, after_counter writes s m))
        (record {
          free = after_free writes s m free;
          numbered = after-IsNumbered writes s m (omega arith) numbered;
          known = omega (arith, entry_number writes s m (omega arith), after_counter writes s m);
          kept = after_restore writes s m;
        }) in
    (
      after writes s m,
      (entry writes s m).version_id,
      rest.0,
      snapshot_returns writes s m free,
      rest.1,
      rest.2,
    )
