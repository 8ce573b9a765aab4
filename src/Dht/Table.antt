-- ===== src/Dht/Table.antt =====
-- src/vpn/dht.rs, `DhtManager`: the table of buckets and the store of values. Every method is one step
-- on the state: the locks of buckets and values are each held for a whole step of a method.
pub mod Invariant
pub mod Nearest
pub mod Values
use Prim.Native.Nat.{Ordering}
use ll_vpn.Common.{
  ℕ, suc, ◌+◌, ◌-◌, ◌*◌, ◌/◌, ◌%◌, ◌^◌, Bool, true, false, not, List, [], ◌∷◌, ◌++◌, Option, none,
  some, ltb, leb, if◌then◌else◌, ite, length, get_or, set, take, replicate, map, Result, ok, err,
  Bytes, key_eq, Eq,
}
use ll_vpn.Common.HashMap
use ll_vpn.Common.HashMap.{HashMap}
use ll_vpn.NodeId.{NodeId, node_id_eq, bytes_eq, filled}
use ll_vpn.Session.{from_secs, elapsed, u64}
use ll_vpn.Dht.Bucket.{BucketEntry, KBucket}
use ll_vpn.Dht.Bucket
use ll_vpn.Dht.Distance.{xor_distance, bucket_index, bucket_count, cmp_xor}

abbrev pub k_bucket_size : ℕ
k_bucket_size = 20

abbrev pub node_timeout_secs : ℕ
node_timeout_secs = 600

-- `struct ValueEntry`; its times are Unix seconds.
pub record ValueEntry : Type 0 where
  pub value : Bytes
  pub created_at : ℕ
  pub ttl : ℕ

unfoldable pub new_value : ℕ → Bytes → ℕ → ValueEntry
new_value now_secs value ttl = record { value = value; created_at = now_secs; ttl = ttl }

-- The sum is one of `u64`.
unfoldable pub is_expired : ℕ → ValueEntry → Bool
is_expired now_secs v = leb (u64 (v.created_at + v.ttl)) now_secs

-- `struct DhtManager`, but for the relay manager, which none of its methods uses.
pub record DhtManager : Type 0 where
  pub local_id : NodeId
  pub buckets : List KBucket
  pub values : HashMap Bytes ValueEntry
  pub local_addr : Bytes
  pub running : Bool

unfoldable pub init_buckets : List KBucket
unfolding Bucket.new_bucket
init_buckets = replicate bucket_count (Bucket.new_bucket k_bucket_size)

unfoldable pub new : NodeId → DhtManager
unfolding init_buckets
new local = record {
  local_id = local;
  buckets = init_buckets;
  values = [];
  local_addr = [];
  running = false;
}

unfoldable pub set_local_addr : DhtManager → Bytes → DhtManager
set_local_addr d addr = record d { local_addr = addr }

-- The bucket that a node belongs to; an index is in range, so the default is never read.
abbrev pub bucket_of : DhtManager → NodeId → KBucket
bucket_of d id =
    get_or d.buckets (bucket_index d.local_id id) (record { entries = []; capacity = 0 })

abbrev pub set_bucket : DhtManager → NodeId → KBucket → DhtManager
set_bucket d id b = record d { buckets = set d.buckets (bucket_index d.local_id id) b }

-- `Err(entry) => Err(Some(entry))`
abbrev pub wrap_entry : Result BucketEntry Bool → Result (Option BucketEntry) Bool
wrap_entry (ok is_new) = ok is_new
wrap_entry (err entry) = err (some entry)

unfoldable pub insert_node :
    ℕ → DhtManager → NodeId → Bytes → DhtManager × Result (Option BucketEntry) Bool
insert_node now d id addr =
    ite (key_eq id d.local_id) (d, ok false)
      (let (b, r) = Bucket.insert now (bucket_of d id) id addr in (set_bucket d id b, wrap_entry r))

unfoldable pub touch_node : ℕ → DhtManager → NodeId → DhtManager × Bool
touch_node now d id =
    ite (key_eq id d.local_id) (d, false)
      (let (b, r) = Bucket.touch now (bucket_of d id) id in (set_bucket d id b, r))

unfoldable pub remove_node : DhtManager → NodeId → DhtManager × Option BucketEntry
remove_node d id =
    ite (key_eq id d.local_id) (d, none)
      (let (b, r) = Bucket.remove (bucket_of d id) id in (set_bucket d id b, r))

-- The walk over all buckets.
unfoldable pub all_entries : List KBucket → List BucketEntry
all_entries [] = []
all_entries (b ∷ bs) = b.entries ++ all_entries bs

-- Whether the first of two stays in front: `Greater` alone exchanges them.
abbrev pub in_order {ℓ} : {A : Type ℓ} → Ordering → A → A → A
in_order Ordering.gt stays exchanged = exchanged
in_order Ordering.lt stays exchanged = stays
in_order Ordering.eq stays exchanged = stays

-- `Vec::sort_by`, which is stable, as an insertion sort.
unfoldable pub insert_sorted : NodeId → BucketEntry → List BucketEntry → List BucketEntry
insert_sorted target e [] = e ∷ []
insert_sorted target e (x ∷ xs) =
    in_order (cmp_xor (xor_distance target e.node_id) (xor_distance target x.node_id)) (e ∷ x ∷ xs)
      (x ∷ insert_sorted target e xs)

unfoldable pub sort_by_distance : NodeId → List BucketEntry → List BucketEntry
unfolding insert_sorted
sort_by_distance target [] = []
sort_by_distance target (e ∷ es) = insert_sorted target e (sort_by_distance target es)

abbrev pub contact : BucketEntry → NodeId × Bytes
contact e = (e.node_id, e.addr)

unfoldable pub find_nearest : DhtManager → NodeId → ℕ → List (NodeId × Bytes)
unfolding sort_by_distance all_entries
find_nearest d target count =
    map contact (take count (sort_by_distance target (all_entries d.buckets)))

unfoldable pub find_node : DhtManager → NodeId → List (NodeId × Bytes)
unfolding find_nearest
find_node d target = find_nearest d target k_bucket_size

unfoldable pub sum_lengths : List KBucket → ℕ
sum_lengths [] = 0
sum_lengths (b ∷ bs) = length b.entries + sum_lengths bs

unfoldable pub node_count : DhtManager → ℕ
unfolding sum_lengths
node_count d = sum_lengths d.buckets

unfoldable pub bucket_size : DhtManager → ℕ → ℕ
bucket_size d idx =
    if ltb idx bucket_count
    then length (get_or d.buckets idx (record { entries = []; capacity = 0 })).entries
    else 0

unfoldable pub all_nodes : DhtManager → List (NodeId × Bytes)
unfolding all_entries
all_nodes d = map contact (all_entries d.buckets)

-- `sha2::Sha256::digest`, of a crate.
module _ (sha256 : Bytes → Bytes) where
  unfoldable pub put_value : ℕ → DhtManager → Bytes → Bytes → ℕ → DhtManager × Bytes
  unfolding new_value
  put_value now_secs d key value ttl = (
    record d { values = HashMap.insert (sha256 key) (new_value now_secs value ttl) d.values },
    sha256 key,
  )

-- `.cloned().filter(|v| !v.is_expired())`
abbrev pub unless_expired : ℕ → Option ValueEntry → Option ValueEntry
unless_expired now_secs none = none
unless_expired now_secs (some v) = if is_expired now_secs v then none else some v

unfoldable pub get_value_by_hash : ℕ → DhtManager → Bytes → Option ValueEntry
get_value_by_hash now_secs d hash = unless_expired now_secs (HashMap.get hash d.values)

unfoldable pub get_value : (Bytes → Bytes) → ℕ → DhtManager → Bytes → Option ValueEntry
unfolding get_value_by_hash
get_value sha256 now_secs d key = get_value_by_hash now_secs d (sha256 key)

unfoldable pub cleanup_values : ℕ → DhtManager → DhtManager × ℕ
cleanup_values now_secs d =
    let kept = HashMap.retain (λ _ v. not (is_expired now_secs v)) d.values in
    (record d { values = kept }, length d.values - length kept)

unfoldable pub value_count : DhtManager → ℕ
value_count d = length d.values

-- `start` spawns no thread: it sets the flag.
unfoldable pub start : DhtManager → DhtManager
start d = record d { running = true }

unfoldable pub stop : DhtManager → DhtManager
stop d = record d { running = false }

-- Every bootstrap node is put under the id of zeros; the list holds their addresses.
unfoldable pub bootstrap_from_nodes : ℕ → DhtManager → List Bytes → DhtManager
bootstrap_from_nodes now d [] = d
bootstrap_from_nodes now d (addr ∷ addrs) =
    bootstrap_from_nodes now (insert_node now d (filled 0) addr).0 addrs

unfoldable pub remove_ids : List BucketEntry → KBucket → KBucket
remove_ids [] b = b
remove_ids (e ∷ es) b = remove_ids es (Bucket.remove b e.node_id).0

-- Whether the front of a bucket was not seen for half the timeout.
unfoldable pub should_ping : ℕ → KBucket → Bool
should_ping now b = elim (Bucket.least_recently_seen b) [
  | none ↦ false
  | some e ↦ ltb (from_secs (node_timeout_secs / 2)) (elapsed now e.last_seen)
]

unfoldable pub refresh_buckets : ℕ → List KBucket → List KBucket × ℕ
unfolding should_ping remove_ids
refresh_buckets now [] = ([], 0)
refresh_buckets now (b ∷ bs) =
    let stale = if should_ping now b then b.entries else [] in
    let (rest, pinged) = refresh_buckets now bs in
    (remove_ids stale b ∷ rest, length stale + pinged)

unfoldable pub refresh : ℕ → DhtManager → DhtManager × ℕ
unfolding refresh_buckets
refresh now d =
    let (buckets, pinged) = refresh_buckets now d.buckets in
    (record d { buckets = buckets }, pinged)
