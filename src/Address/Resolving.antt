-- ===== src/Address/Resolving.antt =====
-- src/address.rs: how long an answer is kept.
use ll_vpn.Common.{
  ℕ, ◌≤◌, ◌<◌, ◌≡◌, refl, ap, ◌∙◌, none, some, ltb, if◌then◌else◌, ok, err, Bytes, arith,
}
use ll_vpn.Common.HashMap
use ll_vpn.Common.HashMap.{HashMap, get-insert, get-remove}
use ll_vpn.NodeId.{NodeId, bytes_eq}
use ll_vpn.Session.{from_secs, elapsed}
use ll_vpn.Address.{
  unknown_node, AddressResolver, CacheEntry, fresh, is_expired, with_entry, MemAddressResolver,
  remove_static_mapping, resolve_mem, resolve_static, CachingResolver, cache_both, resolve_inner,
  resolve_caching,
}

fresh-with_entry :
    (now later ttl : ℕ) (name : Bytes) (id : NodeId) (entries : HashMap Bytes CacheEntry)
    → fresh later name (with_entry now name id ttl entries)
      ≡ (if ltb ttl (elapsed later now) then none else some id)
unfolding fresh with_entry is_expired
fresh-with_entry now later ttl name id entries =
    ground (arith, get-insert name name (record { id = id; inserted_at = now; ttl = ttl }) entries)

module _ {S : Type 0} (resolver : AddressResolver S) where
  caching_asks :
      (now : ℕ) (name : Bytes) (c : CachingResolver S)
      → fresh now name c.entries ≡ none
      → resolve_caching resolver now name c ≡ resolve_inner resolver now name c
  unfolding resolve_caching resolve_inner
  caching_asks now name c e = rw (resolve_caching, e) refl

  caching_knows :
      (now : ℕ) (name : Bytes) (id : NodeId) (c : CachingResolver S)
      → fresh now name c.entries ≡ some id
      → resolve_caching resolver now name c ≡ (c, ok id)
  unfolding resolve_caching
  caching_knows now name id c e = rw (resolve_caching, e) refl

  inner_answers :
      (now : ℕ) (name : Bytes) (id : NodeId) (c : CachingResolver S)
      → (resolver.resolve now name c.inner).1 ≡ ok id
      → ((resolve_inner resolver now name c).1 ≡ ok id)
        × ((resolve_inner resolver now name c).0.entries
            ≡ with_entry now name id (from_secs 300) c.entries)
  unfolding resolve_inner cache_both
  inner_answers now name id c e = (rw (resolve_inner, e) refl, rw (resolve_inner, e) refl)

-- A name that the cache has no fresh entry for, and that the inner resolver knows, is answered with the
-- inner one's id. Whatever becomes of the inner resolver, that answer stays for 300 seconds, and nothing
-- changes by asking; from then on the inner one is asked again.
pub resolve_caching-kept :
    {S : Type 0} (resolver : AddressResolver S) (now later : ℕ) (name : Bytes) (id : NodeId)
    (c : CachingResolver S) (s : S)
    → fresh now name c.entries ≡ none
    → (resolver.resolve now name c.inner).1 ≡ ok id
    → ((resolve_caching resolver now name c).1 ≡ ok id)
      × (elapsed later now ≤ from_secs 300
          → resolve_caching resolver later name
              (record (resolve_caching resolver now name c).0 { inner = s })
            ≡ (record (resolve_caching resolver now name c).0 { inner = s }, ok id))
      × (from_secs 300 < elapsed later now
          → resolve_caching resolver later name
              (record (resolve_caching resolver now name c).0 { inner = s })
            ≡ resolve_inner resolver later name
                (record (resolve_caching resolver now name c).0 { inner = s }))
resolve_caching-kept resolver now later name id c s absent answers =
    let asked = caching_asks resolver now name c absent in
    let found = inner_answers resolver now name id c answers in
    let entries = ap (λ r. r.0.entries) asked ∙ found.1 in
    let kept =
      ap (fresh later name) entries
      ∙ fresh-with_entry now later (from_secs 300) name id c.entries in
    (
      ap (λ r. r.1) asked ∙ found.0,
      λ young. caching_knows resolver later name id _ (ground (arith, kept, young)),
      λ old. caching_asks resolver later name _ (ground (arith, kept, old)),
    )

mem_asks :
    (now : ℕ) (name : Bytes) (r : MemAddressResolver)
    → fresh now name r.entries ≡ none
    → resolve_mem now name r ≡ resolve_static now name r
unfolding resolve_mem resolve_static
mem_asks now name r e = rw (resolve_mem, e) refl

mem_knows :
    (now : ℕ) (name : Bytes) (id : NodeId) (r : MemAddressResolver)
    → fresh now name r.entries ≡ some id
    → resolve_mem now name r ≡ (r, ok id)
unfolding resolve_mem
mem_knows now name id r e = rw (resolve_mem, e) refl

static_answers :
    (now : ℕ) (name : Bytes) (id : NodeId) (r : MemAddressResolver)
    → HashMap.get name r.static_map ≡ some id
    → resolve_static now name r
      ≡ (record r { entries = with_entry now name id r.default_ttl r.entries }, ok id)
unfolding resolve_static
static_answers now name id r e = rw (resolve_static, e) refl

static_fails :
    (now : ℕ) (name : Bytes) (r : MemAddressResolver)
    → HashMap.get name r.static_map ≡ none
    → resolve_static now name r ≡ (r, err (unknown_node name))
unfolding resolve_static
static_fails now name r e = rw (resolve_static, e) refl

-- A name without a fresh entry in the cache is resolved by its static mapping. If the mapping is then
-- removed, the name is still resolved as before for the default time to live, and unknown from then on.
pub resolve_mem-remove_static_mapping :
    (now later : ℕ) (name : Bytes) (id : NodeId) (r : MemAddressResolver)
    → fresh now name r.entries ≡ none
    → HashMap.get name r.static_map ≡ some id
    → ((resolve_mem now name r).1 ≡ ok id)
      × (elapsed later now ≤ r.default_ttl
          → (resolve_mem later name (remove_static_mapping name (resolve_mem now name r).0).0).1
            ≡ ok id)
      × (r.default_ttl < elapsed later now
          → (resolve_mem later name (remove_static_mapping name (resolve_mem now name r).0).0).1
            ≡ err (unknown_node name))
unfolding remove_static_mapping
resolve_mem-remove_static_mapping now later name id r absent mapped =
    let asked = mem_asks now name r absent ∙ static_answers now name id r mapped in
    let kept = fresh-with_entry now later r.default_ttl name id r.entries in
    let left : MemAddressResolver = record r {
      entries = with_entry now name id r.default_ttl r.entries;
      static_map = HashMap.remove name r.static_map;
    } in
    let removed : (remove_static_mapping name (resolve_mem now name r).0).0 ≡ left =
      ap (λ o. (remove_static_mapping name o.0).0) asked in
    (
      ap (λ o. o.1) asked,
      λ young.
          ap (λ (x : MemAddressResolver). (resolve_mem later name x).1) removed
          ∙ ap (λ o. o.1) (mem_knows later name id left (ground (arith, kept, young))),
      λ old.
          ap (λ (x : MemAddressResolver). (resolve_mem later name x).1) removed
          ∙ ap (λ o. o.1)
              (mem_asks later name left (ground (arith, kept, old))
                ∙ static_fails later name left (ground (arith, get-remove name name r.static_map))),
    )
