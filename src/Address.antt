-- ===== src/Address.antt =====
-- src/address.rs: names and ids behind the trait `AddressResolver`, of which a record of operations on a
-- state is the model. The parsing of addresses is left out.
pub mod Resolving
mod Tests
use ll_vpn.Common.{
  ℕ, ◌+◌, Bool, true, false, not, List, [], ◌∷◌, Option, none, some, ltb, if◌then◌else◌, length,
  keep, Result, ok, err, Bytes,
}
use ll_vpn.Common.HashMap
use ll_vpn.Common.HashMap.{HashMap, values}
use ll_vpn.NodeId.{NodeId, bytes_eq}
use ll_vpn.Session.{from_secs, elapsed}

-- `enum AddressError`
pub data AddressError : Type 0 where
  invalid_format unknown_node resolve_timeout cache_expired : Bytes → AddressError

-- `trait AddressResolver`. Each reading of the clock is the first argument.
pub record AddressResolver (S : Type 0) : Type 0 where
  pub resolve : ℕ → Bytes → S → S × Result AddressError NodeId
  pub cache : ℕ → Bytes → NodeId → ℕ → S → S
  pub get_cached : ℕ → Bytes → S → Option NodeId
  pub clear_cache : S → S

-- `struct CacheEntry`
pub record CacheEntry : Type 0 where
  pub id : NodeId
  pub inserted_at : ℕ
  pub ttl : ℕ

unfoldable pub is_expired : ℕ → CacheEntry → Bool
is_expired now e = ltb e.ttl (elapsed now e.inserted_at)

-- `get_cached` of both resolvers.
unfoldable pub fresh : ℕ → Bytes → HashMap Bytes CacheEntry → Option NodeId
unfolding is_expired
fresh now name entries = elim (HashMap.get name entries) [
  | none ↦ none
  | some e ↦ if is_expired now e then none else some e.id
]

unfoldable pub with_entry :
    ℕ → Bytes → NodeId → ℕ → HashMap Bytes CacheEntry → HashMap Bytes CacheEntry
with_entry now name id ttl entries =
    HashMap.insert name (record { id = id; inserted_at = now; ttl = ttl }) entries

-- `struct MemAddressResolver`
pub record MemAddressResolver : Type 0 where
  pub entries : HashMap Bytes CacheEntry
  pub static_map : HashMap Bytes NodeId
  pub default_ttl : ℕ

unfoldable pub with_ttl : ℕ → MemAddressResolver
with_ttl default_ttl = record { entries = []; static_map = []; default_ttl = default_ttl }

unfoldable pub new : MemAddressResolver
unfolding with_ttl
new = with_ttl (from_secs 300)

unfoldable pub add_static_mapping : Bytes → NodeId → MemAddressResolver → MemAddressResolver
add_static_mapping name id r = record r { static_map = HashMap.insert name id r.static_map }

unfoldable pub remove_static_mapping :
    Bytes → MemAddressResolver → MemAddressResolver × Option NodeId
remove_static_mapping name r =
    (record r { static_map = HashMap.remove name r.static_map }, HashMap.get name r.static_map)

unfoldable pub known_nodes : ℕ → MemAddressResolver → ℕ
unfolding is_expired
known_nodes now r =
    length r.static_map
    + length (keep (λ (e : CacheEntry). not (is_expired now e)) (values r.entries))

-- `resolve` where the cache has no answer.
unfoldable pub resolve_static :
    ℕ → Bytes → MemAddressResolver → MemAddressResolver × Result AddressError NodeId
unfolding with_entry
resolve_static now name r = elim (HashMap.get name r.static_map) [
  | none ↦ (r, err (unknown_node name))
  | some id ↦ (record r { entries = with_entry now name id r.default_ttl r.entries }, ok id)
]

unfoldable pub resolve_mem :
    ℕ → Bytes → MemAddressResolver → MemAddressResolver × Result AddressError NodeId
unfolding fresh resolve_static
resolve_mem now name r = elim (fresh now name r.entries) [
  | some id ↦ (r, ok id)
  | none ↦ resolve_static now name r
]

unfoldable pub mem_resolver : AddressResolver MemAddressResolver
unfolding resolve_mem fresh with_entry
mem_resolver = record {
  resolve = resolve_mem;
  cache = λ now name id ttl r. record r { entries = with_entry now name id ttl r.entries };
  get_cached = λ now name r. fresh now name r.entries;
  clear_cache = λ r. record r { entries = [] };
}

-- `struct CachingResolver`
pub record CachingResolver (S : Type 0) : Type 0 where
  pub inner : S
  pub entries : HashMap Bytes CacheEntry

module _ {S : Type 0} (resolver : AddressResolver S) where
  unfoldable pub cache_both : ℕ → Bytes → NodeId → ℕ → CachingResolver S → CachingResolver S
  unfolding with_entry
  cache_both now name id ttl c = record {
    inner = resolver.cache now name id ttl c.inner;
    entries = with_entry now name id ttl c.entries;
  }

  -- `resolve` where the cache has no answer.
  unfoldable pub resolve_inner :
      ℕ → Bytes → CachingResolver S → CachingResolver S × Result AddressError NodeId
  unfolding cache_both
  resolve_inner now name c =
      let asked = resolver.resolve now name c.inner in
      let behind = record c { inner = asked.0 } in
      elim asked.1 [
        | err e ↦ (behind, err e)
        | ok id ↦ (cache_both now name id (from_secs 300) behind, ok id)
      ]

  unfoldable pub resolve_caching :
      ℕ → Bytes → CachingResolver S → CachingResolver S × Result AddressError NodeId
  unfolding fresh resolve_inner
  resolve_caching now name c = elim (fresh now name c.entries) [
    | some id ↦ (c, ok id)
    | none ↦ resolve_inner now name c
  ]

  unfoldable pub caching_resolver : AddressResolver (CachingResolver S)
  unfolding resolve_caching cache_both fresh
  caching_resolver = record {
    resolve = resolve_caching;
    cache = cache_both;
    get_cached = λ now name c. fresh now name c.entries;
    clear_cache = λ c. record { inner = resolver.clear_cache c.inner; entries = [] };
  }
