-- ===== src/Dht/Distance/Prefix.antt =====
-- src/vpn/dht.rs, `bucket_index`, against the bits of ids.
use Prim.Native.Nat.{bit_xor}
use ll_vpn.Common.{
  ℕ, zero, suc, ◌+◌, ◌*◌, ◌≤◌, ◌<◌, ◌^◌, ◌≡◌, ◌≢◌, refl, sym, ◌∙◌, List, [], ◌∷◌, ◌++◌, leb, ◌==◌,
  if◌then◌else◌, Bytes, arith, All, IsByte, length, min,
}
use ll_vpn.Common.Bits.{bits8, weigh, common_prefix, bit_xor-weigh, weigh-cons, weigh-lt}
use ll_vpn.NodeId.{NodeId, IsNodeId}
use ll_vpn.Dht.Distance.{xor_bytes, leading_zeros, first_difference, bucket_index}

-- The 256 bits of an id, the high one first.
unfoldable pub bits : Bytes → List ℕ
bits [] = []
bits (b ∷ bs) = bits8 b ++ bits bs

-- Leading zeros of a number of `n` binary digits.
abbrev zeros : ℕ → ℕ → ℕ
zeros zero w = 0
zeros (suc n) w = let rest = zeros n w in if leb (2 ^ n) w then 0 else suc rest

leading_zeros-zeros : (w : ℕ) → leading_zeros w ≡ zeros 8 w
unfolding leading_zeros
leading_zeros-zeros w = ground arith

digits_prefix :
    (l r xs ys : List ℕ)
    → length l ≡ length r
    → common_prefix (l ++ xs) (r ++ ys) ≡ (
        if weigh l r 0 == 0 then length l + common_prefix xs ys else zeros (length l) (weigh l r 0))
unfolding common_prefix
digits_prefix [] [] xs ys h = omega arith
digits_prefix [] (y ∷ r) xs ys h = absurd (omega arith)
digits_prefix (x ∷ l) [] xs ys h = absurd (omega arith)
digits_prefix (x ∷ l) (y ∷ r) xs ys h =
    let n : length l ≡ length r = omega arith in
    ground (arith, weigh-cons l r x y n, weigh-lt l r n, digits_prefix l r xs ys n)

zeros-lt : (n w : ℕ) → 0 < w → w < 2 ^ n → zeros n w < n
zeros-lt zero w p h = omega arith
zeros-lt (suc n) w p h = ground (arith, zeros-lt n w p)

-- One byte of both ids: bytes that agree share eight bits, others the leading zeros of their
-- exclusive or, which are fewer.
byte_prefix :
    (a b : ℕ) (xs ys : List ℕ)
    → a < 256
    → b < 256
    → (common_prefix (bits8 a ++ xs) (bits8 b ++ ys)
        ≡ (if bit_xor a b == 0 then 8 + common_prefix xs ys else leading_zeros (bit_xor a b)))
      × (bit_xor a b ≢ 0 → leading_zeros (bit_xor a b) < 8)
byte_prefix a b xs ys ha hb =
    let w = weigh (bits8 a) (bits8 b) 0 in
    rw (bit_xor-weigh a b ha hb, leading_zeros-zeros w)
      (
        digits_prefix (bits8 a) (bits8 b) xs ys refl,
        λ some_bit. zeros-lt 8 w (ground arith) (weigh-lt (bits8 a) (bits8 b) refl),
      )

no_prefix : common_prefix [] [] ≡ 0
unfolding common_prefix
no_prefix = refl

bits_prefix :
    (i : ℕ) (as' bs : Bytes)
    → All IsByte as'
    → All IsByte bs
    → length as' ≡ length bs
    → (common_prefix (bits as') (bits bs) ≤ 8 * length as')
      × (first_difference i (xor_bytes as' bs) ≡ (
          if common_prefix (bits as') (bits bs) == 8 * length as'
          then 255
          else i * 8 + common_prefix (bits as') (bits bs)))
unfolding first_difference xor_bytes bits
bits_prefix i [] [] ha hb n = rw no_prefix (omega arith, refl)
bits_prefix i [] (b ∷ bs) ha hb n = absurd (omega arith)
bits_prefix i (a ∷ as') [] ha hb n = absurd (omega arith)
bits_prefix i (a ∷ as') (b ∷ bs) ha hb n = ground (
  arith,
  byte_prefix a b (bits as') (bits bs) ha.0 hb.0,
  bits_prefix (suc i) as' bs ha.1 hb.1 (omega arith),
)

-- For ids of 32 bytes the index of the bucket is the number of leading bits that both share; it is 255
-- where they share all 256. So every index is below 256.
pub bucket_index-common_prefix :
    (local target : NodeId)
    → IsNodeId local
    → IsNodeId target
    → bucket_index local target ≡ min 255 (common_prefix (bits local.bytes) (bits target.bytes))
unfolding bucket_index
bucket_index-common_prefix local target hl ht =
    let (most, index) =
      bits_prefix 0 local.bytes target.bytes hl.in_range ht.in_range (hl.size ∙ sym ht.size) in
    ground (arith, most, index, hl.size)
