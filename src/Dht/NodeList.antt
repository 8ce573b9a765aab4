-- ===== src/Dht/NodeList.antt =====
-- src/vpn/dht.rs: the list of contacts that a `Nodes` message carries.
pub mod RoundTrip
use ll_vpn.Common.{
  ℕ, zero, suc, ◌+◌, Bool, true, false, ◌&&◌, List, [], ◌∷◌, ◌++◌, ltb, leb, ◌==◌, if◌then◌else◌,
  length, take, drop, min, Bytes, be_bytes, from_be,
}
use ll_vpn.NodeId.{NodeId, from_bytes}

-- `String::from_utf8`: the state of the check is the number of bytes that a character still lacks, with
-- the range of the next one.
abbrev pub Expected : Type 0
Expected = ℕ × ℕ × ℕ

unfoldable pub lead : ℕ → Expected
lead b =
    if ltb b 0x80
    then (0, 0, 0)
    else if leb 0xC2 b && leb b 0xDF
    then (1, 0x80, 0xBF)
    else if b == 0xE0
    then (2, 0xA0, 0xBF)
    else if b == 0xED
    then (2, 0x80, 0x9F)
    else if leb 0xE1 b && leb b 0xEF
    then (2, 0x80, 0xBF)
    else if b == 0xF0
    then (3, 0x90, 0xBF)
    else if leb 0xF1 b && leb b 0xF3
    then (3, 0x80, 0xBF)
    else if b == 0xF4
    then (3, 0x80, 0x8F)
    else (4, 0, 0)

-- Four bytes are never lacking: this marks a byte that begins no character.
unfoldable pub is_utf8_from : Expected → Bytes → Bool
unfolding lead
is_utf8_from (n, lo, hi) [] = n == 0
is_utf8_from (zero, lo, hi) (b ∷ bs) =
    let (n, l, h) = lead b in let rest = is_utf8_from (n, l, h) bs in if n == 4 then false else rest
is_utf8_from (suc n, lo, hi) (b ∷ bs) =
    let rest = is_utf8_from (n, 0x80, 0xBF) bs in if leb lo b && leb b hi then rest else false

unfoldable pub is_utf8 : Bytes → Bool
unfolding is_utf8_from
is_utf8 = is_utf8_from (0, 0, 0)

-- `String::from_utf8(..).unwrap_or_default()`
unfoldable pub utf8_or_default : Bytes → Bytes
utf8_or_default bs = if is_utf8 bs then bs else []

abbrev pub u16_max : ℕ
u16_max = 65535

unfoldable pub encode_entries : List (NodeId × Bytes) → Bytes
encode_entries [] = []
encode_entries ((id, addr) ∷ nodes) =
    let addr_len = min (length addr) u16_max in
    id.bytes ++ (be_bytes 2 addr_len ++ (take addr_len addr ++ encode_entries nodes))

unfoldable pub encode_node_list : List (NodeId × Bytes) → Bytes
unfolding encode_entries
encode_node_list nodes =
    let count = min (length nodes) u16_max in be_bytes 2 count ++ encode_entries (take count nodes)

-- The loop of `decode_node_list` over what stands behind its `offset`.
unfoldable pub decode_entries : ℕ → Bytes → List (NodeId × Bytes)
decode_entries zero rest = []
decode_entries (suc n) rest =
    let addr_len = from_be (take 2 (drop 32 rest)) in
    let behind = drop 34 rest in
    let entry : NodeId × Bytes =
      (from_bytes (take 32 rest), utf8_or_default (take addr_len behind)) in
    let later = decode_entries n (drop addr_len behind) in
    if ltb (length rest) (32 + 2)
    then []
    else if ltb (length behind) addr_len
    then []
    else entry ∷ later

unfoldable pub decode_node_list : Bytes → List (NodeId × Bytes)
decode_node_list bytes =
    if ltb (length bytes) 2 then [] else decode_entries (from_be (take 2 bytes)) (drop 2 bytes)
