-- ===== src/Dht/Tests.antt =====
-- src/vpn/dht.rs: runs of buckets, of the table and of the messages on small inputs.
use Prim.Native.Nat.{compare}
use ll_vpn.Common.{
  ℕ, ◌<◌, ◌≡◌, refl, true, false, List, [], ◌∷◌, ◌++◌, none, some, arith, Bytes, ℕ_discrete, min,
  map, length, All,
}
use mathlib.Core.List.{Perm}
use ll_vpn.NodeId.{NodeId, NodeId-discrete, node_id_eq, bytes_eq, filled, IsNodeId}
use ll_vpn.Dht.Bucket.{BucketEntry, KBucket, find, least_recently_seen, is_full}
use ll_vpn.Dht.Bucket.Valid.{IsValid, entry_of}
use ll_vpn.Dht.Distance.{bucket_index, cmp_xor, xor_distance}
use ll_vpn.Dht.Distance.Prefix.{bits, bucket_index-common_prefix}
use ll_vpn.Dht.Distance.Order.{metric, cmp_xor-metric}
use ll_vpn.Common.Bits.{common_prefix}
use ll_vpn.Dht.Table.{
  DhtManager, new, new_value, insert_node, find_nearest, all_entries, node_count, contact,
}
use ll_vpn.Dht.Table.Invariant.{Inv, new-Inv, insert_node-Inv}
use ll_vpn.Dht.Table.Nearest.{find_nearest-nearest, Sorted, NoNearer, far}
use ll_vpn.Dht.NodeList.{encode_node_list, decode_node_list, is_utf8}
use ll_vpn.Dht.NodeList.RoundTrip.{IsContact, decode_node_list-encode_node_list}
use ll_vpn.Dht.Messages.{process_message}
use ll_vpn.Dht.Messages.Safety.{process_message-Inv}

abbrev addr : Bytes
addr = b'h' ∷ []

-- A bucket for two nodes that has one.
abbrev bucket : KBucket
bucket = record { entries = entry_of 5 (filled 2) addr ∷ []; capacity = 2 }

abbrev full : KBucket
full = record { entries = entry_of 5 (filled 2) addr ∷ []; capacity = 1 }

filled-IsNodeId : (b : ℕ) → b < 256 → IsNodeId (filled b)
filled-IsNodeId b h = record { size = refl; in_range = ground arith }

abbrev hash : Bytes → Bytes
hash key = key

abbrev table : DhtManager
table = new (filled 1)

table-Inv : Inv table
table-Inv = new-Inv (filled 1) (filled-IsNodeId 1 (omega arith))

bucket-IsValid : IsValid bucket
unfolding find
bucket-IsValid = record { distinct = (refl, tt); bounded = omega arith }

bucket_room : is_full bucket ≡ false
unfolding is_full
bucket_room = refl

full_has_no_room : is_full full ≡ true
unfolding is_full
full_has_no_room = refl

full_unknown : find (filled 3) full.entries ≡ none
unfolding find NodeId-discrete ℕ_discrete
full_unknown = refl

bucket_front : least_recently_seen bucket ≡ some (entry_of 5 (filled 2) addr)
unfolding least_recently_seen
bucket_front = refl

bucket_index-common_prefix_example :
    bucket_index (filled 1) (filled 3)
    ≡ min 255 (common_prefix (bits (filled 1).bytes) (bits (filled 3).bytes))
bucket_index-common_prefix_example =
    bucket_index-common_prefix (filled 1) (filled 3) (filled-IsNodeId 1 (omega arith))
      (filled-IsNodeId 3 (omega arith))

cmp_xor-metric_example :
    cmp_xor (xor_distance (filled 1) (filled 2)) (xor_distance (filled 1) (filled 3))
    ≡ compare (metric (filled 1) (filled 2)) (metric (filled 1) (filled 3))
cmp_xor-metric_example =
    cmp_xor-metric (filled 1) (filled 2) (filled 3) (filled-IsNodeId 1 (omega arith))
      (filled-IsNodeId 2 (omega arith)) (filled-IsNodeId 3 (omega arith))

find_nearest-nearest_example :
    (near rest : List BucketEntry) × (find_nearest
        (insert_node 9 table (filled 3) addr).0
        (filled 7)
        4
      ≡ map contact near)
    × Perm (near ++ rest) (all_entries (insert_node 9 table (filled 3) addr).0.buckets)
    × (length near ≡ min 4 (node_count (insert_node 9 table (filled 3) addr).0))
    × Sorted (filled 7) near
    × All (λ x. NoNearer (filled 7) (far (filled 7) x) rest) near
find_nearest-nearest_example =
    find_nearest-nearest (insert_node 9 table (filled 3) addr).0 (filled 7) 4
      (insert_node-Inv table table-Inv 9 (filled 3) addr (filled-IsNodeId 3 (omega arith)))
      (filled-IsNodeId 7 (omega arith))

abbrev stored : DhtManager
stored = record table { values = (1 ∷ [], new_value 10 (5 ∷ []) 60) ∷ [] }

abbrev contacts : List (NodeId × Bytes)
contacts = (filled 2, addr) ∷ []

contacts-IsContact : All IsContact contacts
unfolding is_utf8
contacts-IsContact =
    (record { id = filled-IsNodeId 2 (omega arith); text = refl; short = omega arith }, tt)

decode_node_list-encode_node_list_example :
    decode_node_list (encode_node_list contacts ++ (9 ∷ [])) ≡ contacts
decode_node_list-encode_node_list_example =
    decode_node_list-encode_node_list contacts (9 ∷ []) contacts-IsContact (omega arith)

process_message-Inv_example : Inv (process_message hash 9 9 table (filled 3) (1 ∷ [])).0
process_message-Inv_example =
    process_message-Inv hash 9 9 table table-Inv (filled 3) (1 ∷ [])
      (filled-IsNodeId 3 (omega arith)) (ground arith)
