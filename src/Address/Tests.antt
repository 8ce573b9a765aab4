-- ===== src/Address/Tests.antt =====
-- src/address.rs: a resolver with one static mapping, and a cache before it.
use ll_vpn.Common.{◌≡◌, ◌≤◌, ◌<◌, refl, [], ◌∷◌, none, some, ok, err, Bytes, ℕ_discrete}
use ll_vpn.Common.HashMap
use ll_vpn.NodeId.{Bytes-discrete, bytes_eq, filled}
use ll_vpn.Session.{from_secs, elapsed}
use ll_vpn.Address.{
  unknown_node, fresh, MemAddressResolver, remove_static_mapping, resolve_mem, mem_resolver,
  CachingResolver, resolve_inner, resolve_caching,
}
use ll_vpn.Address.Resolving.{resolve_caching-kept, resolve_mem-remove_static_mapping}

abbrev name : Bytes
name = b'a' ∷ []

abbrev resolver : MemAddressResolver
resolver = record { entries = []; static_map = (b'a' ∷ [], filled 1) ∷ []; default_ttl = 60 }

absent_test : fresh 5 name resolver.entries ≡ none
unfolding fresh HashMap.get
absent_test = refl

mapped_test : HashMap.get name resolver.static_map ≡ some (filled 1)
unfolding HashMap.get Bytes-discrete ℕ_discrete
mapped_test = refl

resolve_mem-remove_static_mapping_example :
    ((resolve_mem 5 name resolver).1 ≡ ok (filled 1))
    × (elapsed 9 5 ≤ 60
        → (resolve_mem 9 name (remove_static_mapping name (resolve_mem 5 name resolver).0).0).1
          ≡ ok (filled 1))
    × (60 < elapsed 9 5
        → (resolve_mem 9 name (remove_static_mapping name (resolve_mem 5 name resolver).0).0).1
          ≡ err (unknown_node name))
resolve_mem-remove_static_mapping_example =
    resolve_mem-remove_static_mapping 5 9 name (filled 1) resolver absent_test mapped_test

abbrev caching : CachingResolver MemAddressResolver
caching = record { inner = resolver; entries = [] }

answers_test : (mem_resolver.resolve 5 name caching.inner).1 ≡ ok (filled 1)
unfolding mem_resolver
answers_test =
    (resolve_mem-remove_static_mapping 5 9 name (filled 1) resolver absent_test mapped_test).0

resolve_caching-kept_example :
    ((resolve_caching mem_resolver 5 name caching).1 ≡ ok (filled 1))
    × (elapsed 9 5 ≤ from_secs 300
        → resolve_caching mem_resolver 9 name
            (record (resolve_caching mem_resolver 5 name caching).0 { inner = resolver })
          ≡ (
            record (resolve_caching mem_resolver 5 name caching).0 { inner = resolver },
            ok (filled 1),
          ))
    × (from_secs 300 < elapsed 9 5
        → resolve_caching mem_resolver 9 name
            (record (resolve_caching mem_resolver 5 name caching).0 { inner = resolver })
          ≡ resolve_inner mem_resolver 9 name
              (record (resolve_caching mem_resolver 5 name caching).0 { inner = resolver }))
resolve_caching-kept_example =
    resolve_caching-kept mem_resolver 5 9 name (filled 1) caching resolver absent_test answers_test
