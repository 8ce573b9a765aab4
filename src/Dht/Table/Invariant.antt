-- ===== src/Dht/Table/Invariant.antt =====
-- src/vpn/dht.rs, `DhtManager`: the invariant of the routing table, through its operations.
use ll_vpn.Common.{
  ℕ, zero, suc, ◌+◌, ◌<◌, ◌≡◌, ◌≢◌, refl, ap, subst, ◌∙◌, Bool, List, [], ◌∷◌, Option, length,
  length-set, length-replicate, get_or, set, replicate, arith, Bytes, key_eq, Result, ite_cases,
  if◌then◌else◌,
}
use native.Mathlib.Nat.{add-zero, add-suc, suc-add, zero-add}
use ll_vpn.NodeId.{NodeId, IsNodeId, node_id_eq}
use ll_vpn.Dht.Bucket.{BucketEntry, KBucket, find, renew, without}
use ll_vpn.Dht.Bucket
use ll_vpn.Dht.Bucket.Valid.{
  IsValid, capacity-insert, capacity-touch, insert-IsValid, touch-IsValid, remove-IsValid,
}
use ll_vpn.Dht.Bucket.Members.{Members, insert-Members, touch-Members, remove-Members}
use ll_vpn.Dht.Distance.{bucket_index, bucket_count}
use ll_vpn.Dht.Distance.Prefix.{bucket_index-common_prefix}
use ll_vpn.Dht.Table.{
  DhtManager, k_bucket_size, new, insert_node, touch_node, remove_node, refresh, refresh_buckets,
  remove_ids, should_ping, bucket_of, set_bucket,
}

-- A node that may stand in the bucket `i`.
abbrev pub Belongs : NodeId → ℕ → NodeId → Type 0
Belongs local i id = (bucket_index local id ≡ i) × (id ≢ local) × IsNodeId id

pub record BucketOk (local : NodeId) (i : ℕ) (b : KBucket) : Type 0 where
  pub valid : IsValid b
  pub size : b.capacity ≡ k_bucket_size
  pub members : Members (Belongs local i) b.entries

-- The buckets from the `i`th on.
abbrev pub Placed : NodeId → ℕ → List KBucket → Type 0
Placed local i [] = Unit {0}
Placed local i (b ∷ bs) = BucketOk local i b × Placed local (suc i) bs

pub record Inv (d : DhtManager) : Type 0 where
  pub own : IsNodeId d.local_id
  pub count : length d.buckets ≡ bucket_count
  pub placed : Placed d.local_id 0 d.buckets

module _ (local : NodeId) where
  Placed-get :
      (i j : ℕ) (bs : List KBucket) (x : KBucket)
      → j < length bs
      → Placed local i bs
      → BucketOk local (i + j) (get_or bs j x)
  Placed-get i j [] x h p = absurd (omega arith)
  Placed-get i zero (b ∷ bs) x h p = rw add-zero p.0
  Placed-get i (suc j) (b ∷ bs) x h p =
      rw (add-suc, ← suc-add) (Placed-get (suc i) j bs x (omega arith) p.1)

  Placed-set :
      (i j : ℕ) (bs : List KBucket) (x : KBucket)
      → BucketOk local (i + j) x
      → Placed local i bs
      → Placed local i (set bs j x)
  Placed-set i j [] x fits p = tt
  Placed-set i zero (b ∷ bs) x fits p = (rw add-zero at fits, p.1)
  Placed-set i (suc j) (b ∷ bs) x fits p =
      (p.0, Placed-set (suc i) j bs x (rw (add-suc, ← suc-add) at fits) p.1)

  insert-BucketOk :
      (i now : ℕ) (b : KBucket) (id : NodeId) (addr : Bytes)
      → Belongs local i id
      → BucketOk local i b
      → BucketOk local i (Bucket.insert now b id addr).0
  insert-BucketOk i now b id addr belongs v = record {
    valid = insert-IsValid now b id addr v.valid;
    size = capacity-insert now b id addr ∙ v.size;
    members = insert-Members (Belongs local i) now b id addr belongs v.members;
  }

  touch-BucketOk :
      (i now : ℕ) (b : KBucket) (id : NodeId)
      → BucketOk local i b
      → BucketOk local i (Bucket.touch now b id).0
  touch-BucketOk i now b id v = record {
    valid = touch-IsValid now b id v.valid;
    size = capacity-touch now b id ∙ v.size;
    members = touch-Members (Belongs local i) now b id v.members;
  }

  remove-BucketOk :
      (i : ℕ) (b : KBucket) (id : NodeId)
      → BucketOk local i b
      → BucketOk local i (Bucket.remove b id).0
  unfolding Bucket.remove
  remove-BucketOk i b id v = record {
    valid = remove-IsValid b id v.valid;
    size = v.size;
    members = remove-Members (Belongs local i) b id v.members;
  }

  remove_ids-BucketOk :
      (i : ℕ) (es : List BucketEntry) (b : KBucket)
      → BucketOk local i b
      → BucketOk local i (remove_ids es b)
  unfolding remove_ids
  remove_ids-BucketOk i [] b v = v
  remove_ids-BucketOk i (e ∷ es) b v =
      remove_ids-BucketOk i es (Bucket.remove b e.node_id).0 (remove-BucketOk i b e.node_id v)

  refresh_buckets-Placed :
      (i now : ℕ) (bs : List KBucket)
      → Placed local i bs
      → Placed local i (refresh_buckets now bs).0 × (length (refresh_buckets now bs).0 ≡ length bs)
  unfolding refresh_buckets
  refresh_buckets-Placed i now [] p = (tt, refl)
  refresh_buckets-Placed i now (b ∷ bs) p =
      let rest = refresh_buckets-Placed (suc i) now bs p.1 in
      (
        (remove_ids-BucketOk i (if should_ping now b then b.entries else []) b p.0, rest.0),
        ap suc rest.1,
      )

  replicate-Placed :
      (i n : ℕ) → Placed local i (replicate n (record { entries = []; capacity = k_bucket_size }))
  replicate-Placed i zero = tt
  replicate-Placed i (suc n) = (
    record { valid = record { distinct = tt; bounded = omega arith }; size = refl; members = tt },
    replicate-Placed (suc i) n,
  )

-- A new table is empty and in order.
pub new-Inv : (local : NodeId) → IsNodeId local → Inv (new local)
unfolding new Bucket.new_bucket
new-Inv local own = record {
  own = own;
  count =
      length-replicate {A = KBucket} bucket_count
        (record { entries = []; capacity = k_bucket_size });
  placed = replicate-Placed local 0 bucket_count;
}

module _ (d : DhtManager) (v : Inv d) where
  index-lt : (id : NodeId) → IsNodeId id → bucket_index d.local_id id < length d.buckets
  index-lt id h = omega (arith, bucket_index-common_prefix d.local_id id v.own h, v.count)

  bucket_of-BucketOk :
      (id : NodeId)
      → IsNodeId id
      → BucketOk d.local_id (bucket_index d.local_id id) (bucket_of d id)
  bucket_of-BucketOk id h =
      subst (λ (i : ℕ). BucketOk d.local_id i (bucket_of d id)) (zero-add _)
        (Placed-get d.local_id 0 _ d.buckets _ (index-lt id h) v.placed)

  set_bucket-Inv :
      (id : NodeId) (b : KBucket)
      → BucketOk d.local_id (bucket_index d.local_id id) b
      → Inv (set_bucket d id b)
  set_bucket-Inv id b fits = record {
    own = v.own;
    count = length-set d.buckets _ b ∙ v.count;
    placed =
        Placed-set d.local_id 0 (bucket_index d.local_id id) d.buckets b (rw zero-add fits)
          v.placed;
  }

  -- If the table is in order, it is so after an insertion of any id of 32 bytes.
  pub insert_node-Inv :
      (now : ℕ) (id : NodeId) (addr : Bytes) → IsNodeId id → Inv (insert_node now d id addr).0
  unfolding insert_node
  insert_node-Inv now id addr h =
      ite_cases (λ (r : DhtManager × Result (Option BucketEntry) Bool). Inv r.0)
        (key_eq id d.local_id) _ _ (λ _. v)
        λ other. set_bucket-Inv id (Bucket.insert now (bucket_of d id) id addr).0 (
          insert-BucketOk d.local_id _ now (bucket_of d id) id addr (refl, other, h)
            (bucket_of-BucketOk id h))

  pub touch_node-Inv : (now : ℕ) (id : NodeId) → IsNodeId id → Inv (touch_node now d id).0
  unfolding touch_node
  touch_node-Inv now id h =
      ite_cases (λ (r : DhtManager × Bool). Inv r.0) (key_eq id d.local_id) _ _ (λ _. v)
        λ other.
          set_bucket-Inv id (Bucket.touch now (bucket_of d id) id).0
            (touch-BucketOk d.local_id _ now (bucket_of d id) id (bucket_of-BucketOk id h))

  pub remove_node-Inv : (id : NodeId) → IsNodeId id → Inv (remove_node d id).0
  unfolding remove_node
  remove_node-Inv id h =
      ite_cases (λ (r : DhtManager × Option BucketEntry). Inv r.0) (key_eq id d.local_id) _ _
        (λ _. v)
        λ other.
          set_bucket-Inv id (Bucket.remove (bucket_of d id) id).0
            (remove-BucketOk d.local_id _ (bucket_of d id) id (bucket_of-BucketOk id h))

  -- If the table is in order, it is so after a refresh.
  pub refresh-Inv : (now : ℕ) → Inv (refresh now d).0
  unfolding refresh
  refresh-Inv now =
      let kept = refresh_buckets-Placed d.local_id 0 now d.buckets v.placed in
      record { own = v.own; count = kept.1 ∙ v.count; placed = kept.0 }
