-- ===== src/Dht/Distance/Order.antt =====
-- src/vpn/dht.rs, `cmp_xor`, against numbers.
use Prim.Native.Nat.{compare}
use ll_vpn.Common.{
  ℕ, suc, ◌+◌, ◌*◌, ◌^◌, ◌≤◌, ◌<◌, ◌≡◌, refl, ap, sym, [], ◌∷◌, Bytes, arith, All, IsByte, length,
  from_be, from_be-cons, from_be-lt,
}
use native.Mathlib.Nat.{mul-le-mul_right}
use ll_vpn.Common.Bits.{bit_xor-IsByte}
use ll_vpn.NodeId.{NodeId, IsNodeId}
use ll_vpn.Dht.Distance.{xor_bytes, xor_distance, cmp_xor}

-- The distance of two ids as a number of 256 bits.
abbrev pub metric : NodeId → NodeId → ℕ
metric a b = from_be (xor_distance a b)

high_byte_decides : (a b x y p : ℕ) → a < b → x < p → x + a * p < y + b * p
high_byte_decides a b x y p h lt =
    let step : suc a * p ≤ b * p = mul-le-mul_right p h in grind arith

pub cmp_xor-compare :
    (as' bs : Bytes)
    → All IsByte as'
    → All IsByte bs
    → length as' ≡ length bs
    → cmp_xor as' bs ≡ compare (from_be as') (from_be bs)
unfolding cmp_xor
cmp_xor-compare [] [] ha hb n = unfold from_be in refl
cmp_xor-compare [] (b ∷ bs) ha hb n = absurd (omega arith)
cmp_xor-compare (a ∷ as') [] ha hb n = absurd (omega arith)
cmp_xor-compare (a ∷ as') (b ∷ bs) ha hb n =
    let size : length as' ≡ length bs = omega arith in
    let low_a = from_be-lt as' ha.1 in
    let low_b = from_be-lt bs hb.1 in
    let p = 256 ^ length as' in
    let same : 256 ^ length bs ≡ p = ap (λ (n : ℕ). 256 ^ n) (sym size) in
    rw (from_be-cons a as', from_be-cons b bs, same, cmp_xor-compare as' bs ha.1 hb.1 size)
      (ground (
        arith,
        same,
        low_a,
        low_b,
        high_byte_decides a b (from_be as') (from_be bs) p,
        high_byte_decides b a (from_be bs) (from_be as') p,
      ))

xor_bytes-IsByte : (as' bs : Bytes) → All IsByte as' → All IsByte bs → All IsByte (xor_bytes as' bs)
unfolding xor_bytes
xor_bytes-IsByte [] bs ha hb = tt
xor_bytes-IsByte (a ∷ as') [] ha hb = tt
xor_bytes-IsByte (a ∷ as') (b ∷ bs) ha hb =
    (bit_xor-IsByte a b ha.0 hb.0, xor_bytes-IsByte as' bs ha.1 hb.1)

length-xor_bytes :
    (as' bs : Bytes) → length as' ≡ length bs → length (xor_bytes as' bs) ≡ length as'
unfolding xor_bytes
length-xor_bytes [] bs n = refl
length-xor_bytes (a ∷ as') [] n = absurd (omega arith)
length-xor_bytes (a ∷ as') (b ∷ bs) n = ap suc (length-xor_bytes as' bs (omega arith))

-- For ids of 32 bytes, `cmp_xor` orders the distances of two ids from a third as the numbers that they
-- spell.
pub cmp_xor-metric :
    (target a b : NodeId)
    → IsNodeId target
    → IsNodeId a
    → IsNodeId b
    → cmp_xor (xor_distance target a) (xor_distance target b)
      ≡ compare (metric target a) (metric target b)
unfolding xor_distance
cmp_xor-metric target a b ht ha hb =
    cmp_xor-compare (xor_bytes target.bytes a.bytes) (xor_bytes target.bytes b.bytes)
      (xor_bytes-IsByte target.bytes a.bytes ht.in_range ha.in_range)
      (xor_bytes-IsByte target.bytes b.bytes ht.in_range hb.in_range)
      (omega (
        arith,
        ht.size,
        ha.size,
        hb.size,
        length-xor_bytes target.bytes a.bytes,
        length-xor_bytes target.bytes b.bytes,
      ))
