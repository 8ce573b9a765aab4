-- ===== src/Registry/Cache.antt =====
-- src/registry/center.rs, `RegistryCache`: the names that a client remembers for a while.
use ll_vpn.Common.{
  ℕ, ◌≤◌, ◌≡◌, Bool, true, [], Option, none, some, ltb, ◌==◌, if◌then◌else◌, length, Option-cases,
  inl, inr, Bytes, arith,
}
use ll_vpn.Common.HashMap
use ll_vpn.Common.HashMap.{
  HashMap, retain, Distinct, get-retain, get-insert, insert-Distinct, remove-Distinct,
  retain-Distinct,
}
use ll_vpn.NodeId.{NodeId, bytes_eq}
use ll_vpn.Session.{from_secs, elapsed}

-- `struct RegistryCache`: the id of each name, with the instant of its insertion.
pub record RegistryCache : Type 0 where
  pub cache : HashMap Bytes (NodeId × ℕ)
  pub ttl : ℕ

unfoldable pub new : ℕ → RegistryCache
new ttl = record { cache = []; ttl = ttl }

unfoldable pub is_fresh : ℕ → RegistryCache → NodeId × ℕ → Bool
is_fresh now c v = ltb (elapsed now v.1) (from_secs c.ttl)

unfoldable pub get : ℕ → Bytes → RegistryCache → Option NodeId
unfolding is_fresh
get now name c = elim (HashMap.get name c.cache) [
  | none ↦ none
  | some v ↦ if is_fresh now c v then some v.0 else none
]

unfoldable pub insert : ℕ → Bytes → NodeId → RegistryCache → RegistryCache
insert now name id c = record c { cache = HashMap.insert name (id, now) c.cache }

unfoldable pub remove : Bytes → RegistryCache → RegistryCache
remove name c = record c { cache = HashMap.remove name c.cache }

unfoldable pub clear : RegistryCache → RegistryCache
clear c = record c { cache = [] }

unfoldable pub len : RegistryCache → ℕ
len c = length c.cache

unfoldable pub is_empty : RegistryCache → Bool
unfolding len
is_empty c = len c == 0

unfoldable pub cleanup : ℕ → RegistryCache → RegistryCache
unfolding is_fresh
cleanup now c = record c { cache = retain (λ _ v. is_fresh now c v) c.cache }

-- A cleanup changes no answer, then or later.
cleanup_later :
    (now later : ℕ) (c : RegistryCache) (v : NodeId × ℕ)
    → now ≤ later
    → is_fresh later c v ≡ true
    → is_fresh now c v ≡ true
unfolding is_fresh
cleanup_later now later c v h f = ground (arith, f)

-- In a cache in which no name stands twice, a name is answered for the time to live after its insertion, and
-- a cleanup at any time changes no answer then or later.
pub cache_answers :
    (now later : ℕ) (name other : Bytes) (id : NodeId) (c : RegistryCache)
    → Distinct c.cache
    → now ≤ later
    → (get later name (insert now name id c)
        ≡ (if ltb (elapsed later now) (from_secs c.ttl) then some id else none))
      × (get later other (cleanup now c) ≡ get later other c)
unfolding get insert cleanup is_fresh
cache_answers now later name other id c d h = (
  ground (arith, get-insert name name (id, now) c.cache),
  elim (Option-cases (HashMap.get other c.cache)) [
    | inl missing ↦ ground (arith, missing, get-retain (λ _ v. is_fresh now c v) other c.cache d)
    | inr (v, here) ↦ ground (
      arith,
      here,
      get-retain (λ _ v. is_fresh now c v) other c.cache d,
      cleanup_later now later c v h,
    )
  ],
)
