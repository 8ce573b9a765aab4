-- ===== src/Dht/Distance.antt =====
-- src/vpn/dht.rs: the XOR distance, the order of distances, and the bucket of a node.
pub mod Prefix
pub mod Order
use Prim.Native.Nat.{bit_xor, compare, Ordering}
use ll_vpn.Common.{
  ℕ, zero, suc, ◌+◌, ◌-◌, ◌*◌, ◌≤◌, ◌<◌, Bool, true, false, List, [], ◌∷◌, ltb, leb, ◌==◌,
  if◌then◌else◌, Bytes,
}
use ll_vpn.NodeId.{NodeId}

abbrev pub bucket_count : ℕ
bucket_count = 256

-- Byte by byte, over two arrays of one length.
unfoldable pub xor_bytes : Bytes → Bytes → Bytes
xor_bytes [] bs = []
xor_bytes (a ∷ as') [] = []
xor_bytes (a ∷ as') (b ∷ bs) = bit_xor a b ∷ xor_bytes as' bs

unfoldable pub xor_distance : NodeId → NodeId → Bytes
unfolding xor_bytes
xor_distance a b = xor_bytes a.bytes b.bytes

-- `u8::leading_zeros`
unfoldable pub leading_zeros : ℕ → ℕ
leading_zeros x =
    if leb 128 x
    then 0
    else if leb 64 x
    then 1
    else if leb 32 x
    then 2
    else if leb 16 x
    then 3
    else if leb 8 x
    then 4
    else if leb 4 x
    then 5
    else if leb 2 x
    then 6
    else if leb 1 x
    then 7
    else 8

-- The loop of `bucket_index` from byte `i` on.
unfoldable pub first_difference : ℕ → Bytes → ℕ
first_difference i [] = bucket_count - 1
first_difference i (x ∷ xs) =
    let rest = first_difference (suc i) xs in if x == 0 then rest else i * 8 + leading_zeros x

unfoldable pub bucket_index : NodeId → NodeId → ℕ
unfolding xor_distance
bucket_index local target = first_difference 0 (xor_distance local target)

-- The first byte that differs decides.
unfoldable pub cmp_xor : Bytes → Bytes → Ordering
cmp_xor [] bs = Ordering.eq
cmp_xor (a ∷ as') [] = Ordering.eq
cmp_xor (a ∷ as') (b ∷ bs) = let rest = cmp_xor as' bs in if a == b then rest else compare a b
