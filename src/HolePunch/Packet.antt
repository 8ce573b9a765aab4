-- ===== src/HolePunch/Packet.antt =====
-- src/vpn/hole_punch.rs, `build_punch_packet` and `is_valid_punch_response`.
use mathlib.Core.List.{append_assoc, append-nil}
use ll_vpn.Common.{
  ◌≡◌, refl, true, ◌++◌, none, some, if◌then◌else◌, length, take, replicate, length-append,
  length-take, take_all, take-append_of, ge→ltb, arith, Bytes, ℕ_discrete,
}
use ll_vpn.NodeId.{NodeId, IsNodeId, Bytes-discrete}
use ll_vpn.HolePunch.{
  magic, resized, build_punch_packet, same_bytes, is_valid_punch_response, answer, datagram,
}

magic_matches : same_bytes magic magic ≡ true
unfolding Bytes-discrete ℕ_discrete
magic_matches = refl

module _ (local target : NodeId) (hl : IsNodeId local) (ht : IsNodeId target) where
  abbrev ids : Bytes
  ids = take 28 local.bytes ++ take 28 target.bytes

  abbrev padding : Bytes
  padding = replicate 4 0

  length-ids : length ids ≡ 56
  length-ids = omega (
    arith,
    length-append (take 28 local.bytes) (take 28 target.bytes),
    length-take 28 local.bytes,
    length-take 28 target.bytes,
    hl.size,
    ht.size,
  )

  packet_parts : build_punch_packet local target ≡ magic ++ (ids ++ padding)
  unfolding build_punch_packet
  packet_parts = rw (take_all 60 ids (omega (arith, length-ids)), length-ids)

  length-packet : length (build_punch_packet local target) ≡ 64
  length-packet = rw packet_parts (omega (arith, length-append ids padding, length-ids))

  received_whole : resized (build_punch_packet local target) ≡ build_punch_packet local target
  received_whole =
      rw
        (
          take_all 64 (build_punch_packet local target) (omega (arith, length-packet)),
          length-packet,
        )
        (append-nil (build_punch_packet local target))

  -- A packet that arrives is taken for an answer of a peer exactly when the first 28 bytes of the
  -- sender's id are those of the peer's, whoever the packet was for.
  pub answer-build_punch_packet :
      {Addr : Type 0} (peer : NodeId) (src : Addr)
      → answer peer (datagram (build_punch_packet local target) src)
        ≡ (if same_bytes (take 28 local.bytes) (take 28 peer.bytes) then some src else none)
  unfolding answer is_valid_punch_response
  answer-build_punch_packet peer src =
      let head = take 28 local.bytes in
      let size : length head ≡ 28 = omega (arith, length-take 28 local.bytes, hl.size) in
      let rest = take 28 target.bytes ++ padding in
      rw (
        received_whole,
        packet_parts,
        append_assoc head (take 28 target.bytes) padding,
        ge→ltb (length (magic ++ (head ++ rest))) 32 (omega (arith, length-append head rest, size)),
        magic_matches,
        take-append_of 28 head rest size,
      )
