-- ===== src/Storage/Version/Pruning.antt =====
-- src/storage/version.rs: what pruning keeps, and when its calls return.
use ll_vpn.Common.{
  ℕ, ◌+◌, ◌-◌, ◌≤◌, ◌<◌, ◌≡◌, refl, ap, ◌↔◌, inl, inr, Bool, true, [], ◌∷◌, none, some, length,
  take, take_all, length-take, Option-cases, Bool-cases, arith, Bytes, leb,
}
use ll_vpn.Common.HashMap
use ll_vpn.Common.HashMap.{HashMap}
use ll_vpn.NodeId.{bytes_eq}
use ll_vpn.Storage.Version.{
  FileVersions, VersionStore, prune, prune_each, prune_all, count_versions, total_versions,
}
use ll_vpn.Storage.Version.Manager.{
  VersionManager, save_if_dirty, mark_and_save_held, prune_versions,
}

-- What `prune` makes of a file, in one equation.
abbrev pub newest : ℕ → FileVersions → FileVersions
newest n f = record f { versions = take n f.versions }

leb→le : (a b : ℕ) → leb a b ≡ true → a ≤ b
leb→le a b h = ground arith

prune-newest : (n : ℕ) (f : FileVersions) → prune n f ≡ (newest n f, length f.versions - n)
unfolding prune
prune-newest n f = elim (Bool-cases (leb (length f.versions) n)) [
  | inl small ↦
      rw (small, take_all n f.versions (leb→le (length f.versions) n small))
        (ap (λ (k : ℕ). (f, k)) (omega (arith, leb→le (length f.versions) n small)))
  | inr large ↦ rw large
]

prune_each-get :
    (n : ℕ) (name : Bytes) (m : HashMap Bytes FileVersions)
    → HashMap.get name (prune_each n m).0
      ≡ elim (HashMap.get name m) [ none ↦ none | some f ↦ some (newest n f) ]
unfolding prune_each HashMap.get
prune_each-get n name [] = refl
prune_each-get n name ((k, f) ∷ m) = ground (arith, prune-newest n f, prune_each-get n name m)

prune_each-count :
    (n : ℕ) (m : HashMap Bytes FileVersions)
    → count_versions (prune_each n m).0 + (prune_each n m).1 ≡ count_versions m
unfolding prune_each count_versions
prune_each-count n [] = refl
prune_each-count n ((k, f) ∷ m) =
    rw (prune-newest n f) (omega (arith, length-take n f.versions, prune_each-count n m))

-- `prune_all` leaves of every file the newest versions, as many as are to be kept at most, in their order,
-- and returns how many versions are gone from the store.
pub prune_all-newest :
    (n : ℕ) (s : VersionStore)
    → ((name : Bytes)
        → HashMap.get name (prune_all n s).0.files
          ≡ elim (HashMap.get name s.files) [ none ↦ none | some f ↦ some (newest n f) ])
      × (total_versions (prune_all n s).0 + (prune_all n s).1 ≡ total_versions s)
unfolding prune_all total_versions
prune_all-newest n s = (λ name. prune_each-get n name s.files, prune_each-count n s.files)

held_blocks : (writes : Bool) (m : VersionManager) → mark_and_save_held writes m ≡ none
unfolding mark_and_save_held save_if_dirty
held_blocks writes m = refl

-- `prune_versions` never returns exactly if there are versions to remove: it then saves while it holds
-- the guard that the save waits for.
pub prune_versions_blocks :
    (writes : Bool) (name : Bytes) (n : ℕ) (m : VersionManager)
    → (prune_versions writes name n m ≡ none)
      ↔ ((f : FileVersions) × (HashMap.get name m.store.files ≡ some f) × (n < length f.versions))
unfolding prune_versions
prune_versions_blocks writes name n m = elim (Option-cases (HashMap.get name m.store.files)) [
  | inl missing ↦ ground (arith, missing)
  | inr (f, here) ↦ ground (arith, here, prune-newest n f, held_blocks writes)
]
