-- ===== src/Dht/Table/Values.antt =====
-- src/vpn/dht.rs, the store of values: putting, getting and cleaning up.
use ll_vpn.Common.{ℕ, ◌+◌, ◌^◌, ◌≤◌, ◌<◌, ◌≡◌, ◌≢◌, true, not, some, arith, Bytes}
use ll_vpn.Common.HashMap.{Distinct, get-insert, get-retain}
use ll_vpn.NodeId.{bytes_eq}
use ll_vpn.Dht.Table.{
  DhtManager, ValueEntry, new_value, is_expired, put_value, get_value, get_value_by_hash,
  unless_expired, cleanup_values,
}

module _ (sha256 : Bytes → Bytes) where
  -- A value is read under its key until it expires, and putting it changes the answer for no key with
  -- another hash.
  pub get_value-put_value :
      (d : DhtManager) (now_secs later ttl : ℕ) (key other value : Bytes)
      → (get_value sha256 later (put_value sha256 now_secs d key value ttl).0 key
          ≡ unless_expired later (some (new_value now_secs value ttl)))
        × (sha256 key ≢ sha256 other
            → get_value sha256 later (put_value sha256 now_secs d key value ttl).0 other
              ≡ get_value sha256 later d other)
  unfolding get_value put_value
  get_value-put_value d now_secs later ttl key other value =
      let entry = new_value now_secs value ttl in
      (
        ground (arith, get-insert (sha256 key) (sha256 key) entry d.values),
        λ apart. ground (arith, get-insert (sha256 other) (sha256 key) entry d.values),
      )

-- In a store where no hash stands twice, a cleanup takes away no value that could still be read: the
-- answer for any hash, at the time of the cleanup or later, is what it was.
pub cleanup_values-get :
    (d : DhtManager) (now_secs later : ℕ) (hash : Bytes)
    → Distinct d.values
    → now_secs ≤ later
    → get_value_by_hash later (cleanup_values now_secs d).0 hash ≡ get_value_by_hash later d hash
unfolding get_value_by_hash cleanup_values is_expired
cleanup_values-get d now_secs later hash distinct h =
    ground (arith, get-retain (λ _ v. not (is_expired now_secs v)) hash d.values distinct)

-- Where the time of creation and the time to live, both `u64`, have a sum of 2 ^ 64 or more, the value
-- is expired from its creation on.
pub is_expired_wraps :
    (v : ValueEntry) (now_secs : ℕ)
    → v.ttl < 2 ^ 64
    → 2 ^ 64 ≤ v.created_at + v.ttl
    → v.created_at ≤ now_secs
    → v.created_at < 2 ^ 64
    → is_expired now_secs v ≡ true
unfolding is_expired
is_expired_wraps v now_secs small long made past = ground arith
