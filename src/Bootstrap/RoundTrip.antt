-- ===== src/Bootstrap/RoundTrip.antt =====
-- src/vpn/bootstrap.rs, `BootstrapRequest::to_bytes` and `BootstrapRequest::from_bytes` after each other.
use mathlib.Core.List.{append_assoc}
use ll_vpn.Common.{
  ◌+◌, ◌%◌, ◌^◌, ◌<◌, ◌≡◌, refl, ap, ◌∙◌, true, ◌∷◌, ◌++◌, some, length, length-append,
  get_or-append, drop-suc-append, take-append_of, drop-append_of, ge→ltb, arith, Bytes, be_bytes,
  length-be_bytes, from_be-be_bytes,
}
use ll_vpn.NodeId.{NodeId, IsNodeId}
use ll_vpn.NodeId
use ll_vpn.Dht.NodeList.{is_utf8}
use ll_vpn.Bootstrap.{
  BootstrapRequest, BootstrapRequestType, get_node_list, report_node, node_list_response,
  type_from_u8, type_to_u8, to_bytes, after_length, from_bytes,
}

type_from_u8-type_to_u8 : (t : BootstrapRequestType) → type_from_u8 (type_to_u8 t) ≡ some t
unfolding type_from_u8 type_to_u8
type_from_u8-type_to_u8 get_node_list = refl
type_from_u8-type_to_u8 report_node = refl
type_from_u8-type_to_u8 node_list_response = refl

-- What a request can hold that is read back.
pub record IsRequest (r : BootstrapRequest) : Type 0 where
  pub sender : IsNodeId r.sender_id
  pub text : is_utf8 r.sender_name ≡ true
  pub short : length r.sender_name < 2 ^ 8
  pub timed : r.timestamp < 2 ^ 64

module _ (r : BootstrapRequest) (rest : Bytes) (h : IsRequest r) where
  abbrev tail : Bytes
  tail = r.sender_name ++ (be_bytes 8 r.timestamp ++ rest)

  tail_read : after_length r.request_type r.sender_id (length r.sender_name) tail ≡ some r
  unfolding after_length
  tail_read =
      let stamp = be_bytes 8 r.timestamp in
      rw (
        ge→ltb (length tail) (length r.sender_name + 8) (
            omega (
              arith,
              length-append r.sender_name (stamp ++ rest),
              length-append stamp rest,
              length-be_bytes 8 r.timestamp,
            )),
        take-append_of (length r.sender_name) r.sender_name (stamp ++ rest) refl,
        h.text,
        drop-append_of (length r.sender_name) r.sender_name (stamp ++ rest) refl,
        take-append_of 8 stamp rest (length-be_bytes 8 _),
        from_be-be_bytes 8 r.timestamp (omega (arith, h.timed)),
      )

  abbrev behind_type : Bytes
  behind_type = r.sender_id.bytes ++ (length r.sender_name ∷ tail)

  to_bytes-append : to_bytes r ++ rest ≡ type_to_u8 r.request_type ∷ behind_type
  unfolding to_bytes
  to_bytes-append =
      let fits : length r.sender_name % 2 ^ 8 ≡ length r.sender_name = omega (arith, h.short) in
      rw (
        fits,
        append_assoc r.sender_id.bytes
            (length r.sender_name ∷ (r.sender_name ++ be_bytes 8 r.timestamp)) rest,
        append_assoc r.sender_name (be_bytes 8 r.timestamp) rest,
      )

  -- A request with an id of 32 bytes, a name of at most 255 bytes of valid text, and a timestamp of 64
  -- bits is read back as it was, whatever bytes follow it.
  pub bootstrap_request-round_trip : from_bytes (to_bytes r ++ rest) ≡ some r
  unfolding from_bytes NodeId.from_bytes
  bootstrap_request-round_trip =
      let id = r.sender_id.bytes in
      let n = length r.sender_name in
      ap from_bytes to_bytes-append
      ∙ rw (
        ge→ltb (length (type_to_u8 r.request_type ∷ behind_type)) 42 (
            omega (
              arith,
              h.sender.size,
              length-append id (n ∷ tail),
              length-append r.sender_name (be_bytes 8 r.timestamp ++ rest),
              length-append (be_bytes 8 r.timestamp) rest,
              length-be_bytes 8 r.timestamp,
            )),
        type_from_u8-type_to_u8 r.request_type,
        take-append_of 32 id (n ∷ tail) h.sender.size,
        get_or-append 32 id tail n 0 h.sender.size,
        drop-suc-append 32 id tail n h.sender.size,
        tail_read,
      )
