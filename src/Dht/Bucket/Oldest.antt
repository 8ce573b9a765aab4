-- ===== src/Dht/Bucket/Oldest.antt =====
-- src/vpn/dht.rs, `KBucket`: look-ups after an insertion, and the front of the queue.
use ll_vpn.Common.{ℕ, ◌≡◌, ◌⊎◌, true, false, inl, inr, none, some, arith, ite, err, Bytes, key_eq}
use ll_vpn.NodeId.{NodeId, node_id_eq}
use ll_vpn.Dht.Bucket.{BucketEntry, KBucket, find, renew, insert, least_recently_seen, is_full}
use ll_vpn.Dht.Bucket.Valid.{find-append_one, find-renew, entry_of}

-- After an insertion into a bucket with room, or of a node that is known, a search for any node finds
-- the new entry under its id and what was there before under every other.
pub find-insert :
    (now : ℕ) (b : KBucket) (id j : NodeId) (addr : Bytes)
    → is_full b ≡ false ⊎ ((e : BucketEntry) × (find id b.entries ≡ some e))
    → find j (insert now b id addr).0.entries
      ≡ ite (key_eq id j) (some (entry_of now id addr)) (find j b.entries)
unfolding insert is_full
find-insert now b id j addr (inl room) =
    ground (
      arith,
      find-renew now id j addr b.entries,
      find-append_one j b.entries (entry_of now id addr),
    )
find-insert now b id j addr (inr (e, known)) = ground (arith, find-renew now id j addr b.entries)

-- A full bucket stays as it is when an unknown node is inserted, and hands back the refused entry
-- itself.
pub insert_full :
    (now : ℕ) (b : KBucket) (id : NodeId) (addr : Bytes)
    → is_full b ≡ true
    → find id b.entries ≡ none
    → insert now b id addr ≡ (b, err (entry_of now id addr))
unfolding insert is_full
insert_full now b id addr full unknown = rw (unknown, insert) (ground arith)

-- Inserting the node at the front of a bucket again leaves it at the front, with the new address and
-- time.
pub insert_front_stays :
    (now : ℕ) (b : KBucket) (e : BucketEntry) (addr : Bytes)
    → least_recently_seen b ≡ some e
    → least_recently_seen (insert now b e.node_id addr).0 ≡ some (entry_of now e.node_id addr)
unfolding insert least_recently_seen find renew
insert_front_stays now b e addr front = ground arith
