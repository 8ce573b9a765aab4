-- ===== src/Dht/Bucket.antt =====
-- src/vpn/dht.rs, `KBucket`: a queue of nodes with a capacity.
pub mod Valid
pub mod Members
pub mod Oldest
use ll_vpn.Common.{
  ℕ, suc, ◌+◌, Bool, true, false, List, [], ◌∷◌, ◌++◌, Option, none, some, ltb, leb, if◌then◌else◌,
  ite, length, Result, ok, err, Bytes, key_eq,
}
use ll_vpn.NodeId.{NodeId, node_id_eq}

-- `struct BucketEntry`; an address is the bytes of its text.
pub record BucketEntry : Type 0 where
  pub node_id : NodeId
  pub addr : Bytes
  pub last_seen : ℕ

-- `struct KBucket`; the front of the queue comes first.
pub record KBucket : Type 0 where
  pub entries : List BucketEntry
  pub capacity : ℕ

unfoldable pub new_bucket : ℕ → KBucket
new_bucket capacity = record { entries = []; capacity = capacity }

-- The first entry for a node.
unfoldable pub find : NodeId → List BucketEntry → Option BucketEntry
find id [] = none
find id (e ∷ es) = ite (key_eq e.node_id id) (some e) (find id es)

-- The first loop of `insert`: a known node keeps its place.
unfoldable pub renew : ℕ → NodeId → Bytes → List BucketEntry → List BucketEntry
renew now id addr [] = []
renew now id addr (e ∷ es) =
    ite (key_eq e.node_id id) (record e { last_seen = now; addr = addr } ∷ es)
      (e ∷ renew now id addr es)

unfoldable pub insert : ℕ → KBucket → NodeId → Bytes → KBucket × Result BucketEntry Bool
insert now b id addr = elim (find id b.entries) [
  | some _ ↦ (record b { entries = renew now id addr b.entries }, ok false)
  | none ↦
      let entry : BucketEntry = record { node_id = id; addr = addr; last_seen = now } in
      if ltb (length b.entries) b.capacity
      then (record b { entries = b.entries ++ (entry ∷ []) }, ok true)
      else (b, err entry)
]

-- `VecDeque::remove` at the first entry for a node.
unfoldable pub without : NodeId → List BucketEntry → List BucketEntry
without id [] = []
without id (e ∷ es) = ite (key_eq e.node_id id) es (e ∷ without id es)

unfoldable pub touch : ℕ → KBucket → NodeId → KBucket × Bool
touch now b id = elim (find id b.entries) [
  | none ↦ (b, false)
  | some e ↦
      (record b { entries = without id b.entries ++ (record e { last_seen = now } ∷ []) }, true)
]

unfoldable pub remove : KBucket → NodeId → KBucket × Option BucketEntry
remove b id = (record b { entries = without id b.entries }, find id b.entries)

unfoldable pub is_empty : KBucket → Bool
is_empty b = elim b.entries [ [] ↦ true | _ ∷ _ ↦ false ]

unfoldable pub is_full : KBucket → Bool
is_full b = leb b.capacity (length b.entries)

unfoldable pub least_recently_seen : KBucket → Option BucketEntry
least_recently_seen b = elim b.entries [ [] ↦ none | e ∷ _ ↦ some e ]

unfoldable pub clear : KBucket → KBucket
clear b = record b { entries = [] }
