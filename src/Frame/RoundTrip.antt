-- ===== src/Frame/RoundTrip.antt =====
-- src/vpn/relay.rs, `Message::to_bytes` and `Message::from_bytes` after each other.
use mathlib.Core.List.{append_assoc}
use ll_vpn.Common.{
  ℕ, ◌+◌, ◌%◌, ◌^◌, ◌≤◌, ◌<◌, ◌≡◌, refl, sym, ap, subst, ◌∙◌, ◌∷◌, ◌++◌, some, inl, inr, arith,
  length, length-append, length-take, length-drop, take, drop, get_or, ok, Bytes, be_bytes, from_be,
  length-be_bytes, from_be-be_bytes, be_bytes_of, from_be_lt_of, drop-drop, take-append_of,
  get_or-append, drop-suc-append, take-get_or-drop, ge→ltb, ltb→ge, ltb, All, All-take, IsByte,
  Option-cases, Bool-cases, take-append_drop,
}
use ll_vpn.Frame.{
  MessageType, handshake, Message, type_from_u8, type_to_u8, to_bytes, from_bytes, parse_payload,
}

pub type_from_u8-type_to_u8 : (t : MessageType) → type_from_u8 (type_to_u8 t) ≡ some t
unfolding type_from_u8 type_to_u8
type_from_u8-type_to_u8 handshake = refl
type_from_u8-type_to_u8 _ = refl

pub type_to_u8-type_from_u8 : (b : ℕ) (t : MessageType) → type_from_u8 b ≡ some t → type_to_u8 t ≡ b
unfolding type_from_u8 type_to_u8
type_to_u8-type_from_u8 b t h = ground arith

-- The four bytes in front of a frame.
abbrev header : Message → Bytes
header m = be_bytes 4 (length m.payload % 2 ^ 32)

pub length-to_bytes : (m : Message) → length (to_bytes m) ≡ 5 + length m.payload
unfolding to_bytes
length-to_bytes m = omega (
  arith,
  length-append (header m) (type_to_u8 m.msg_type ∷ m.payload),
  length-be_bytes 4 (length m.payload % 2 ^ 32),
)

-- The fields of a frame that has more bytes behind it.
module _ (m : Message) (rest : Bytes) where
  pub to_bytes-append :
      to_bytes m ++ rest ≡ header m ++ (type_to_u8 m.msg_type ∷ (m.payload ++ rest))
  unfolding to_bytes
  to_bytes-append = append_assoc (header m) (type_to_u8 m.msg_type ∷ m.payload) rest

  length-header : length (header m) ≡ 4
  length-header = length-be_bytes 4 (length m.payload % 2 ^ 32)

  framed_type : get_or (to_bytes m ++ rest) 4 0 ≡ type_to_u8 m.msg_type
  framed_type = rw to_bytes-append (get_or-append 4 (header m) _ _ 0 length-header)

  framed_payload : take (length m.payload) (drop 5 (to_bytes m ++ rest)) ≡ m.payload
  framed_payload =
      rw (to_bytes-append, drop-suc-append 4 (header m) (m.payload ++ rest) _ length-header)
        (take-append_of (length m.payload) m.payload rest refl)

  framed_length :
      length m.payload < 2 ^ 32 → from_be (take 4 (to_bytes m ++ rest)) ≡ length m.payload
  framed_length short =
      rw (to_bytes-append, take-append_of 4 (header m) _ length-header)
        (from_be-be_bytes 4 (length m.payload % 2 ^ 32) (omega arith) ∙ omega arith)

-- Reading a written frame gives the message back, whatever bytes follow it, as long as the length
-- of the payload fits the four bytes of the header.
pub from_bytes-to_bytes :
    (m : Message) (rest : Bytes)
    → length m.payload < 2 ^ 32
    → from_bytes (to_bytes m ++ rest) ≡ ok m
unfolding from_bytes
from_bytes-to_bytes m rest short =
    let long : length (to_bytes m ++ rest) ≡ 5 + length m.payload + length rest =
      omega (arith, length-append (to_bytes m) rest, length-to_bytes m) in
    rw (
      ge→ltb (length (to_bytes m ++ rest)) 5 (omega arith),
      framed_type m rest,
      type_from_u8-type_to_u8 m.msg_type,
      framed_length m rest short,
      ge→ltb (length (to_bytes m ++ rest)) (5 + length m.payload) (omega arith),
      framed_payload m rest,
    )

-- What a successful read has found.
record Parsed (bytes : Bytes) (m : Message) : Type 0 where
  long : 5 + length m.payload ≤ length bytes
  kind : type_from_u8 (get_or bytes 4 0) ≡ some m.msg_type
  counted : from_be (take 4 bytes) ≡ length m.payload
  body : take (length m.payload) (drop 5 bytes) ≡ m.payload

parse_payload-Parsed :
    (bytes : Bytes) (t : MessageType) (m : Message)
    → type_from_u8 (get_or bytes 4 0) ≡ some t
    → parse_payload bytes (from_be (take 4 bytes)) t ≡ ok m
    → Parsed bytes m
unfolding parse_payload
parse_payload-Parsed bytes t m kind h =
    let len = from_be (take 4 bytes) in
    elim (Bool-cases (ltb (length bytes) (5 + len))) [
      | inl short ↦ ground arith
      | inr long ↦
          let size : length (take len (drop 5 bytes)) ≡ len = omega (
            arith,
            length-take len (drop 5 bytes),
            length-drop 5 bytes,
            ltb→ge (length bytes) (5 + len) long,
          ) in
          let v : Message = record { msg_type = t; payload = take len (drop 5 bytes) } in
          let same : v ≡ m = ground arith in
          subst (Parsed bytes) same (record {
            long = omega (arith, size, ltb→ge (length bytes) (5 + len) long);
            kind = kind;
            counted = sym size;
            body = rw size;
          })
    ]

from_bytes-Parsed : (bytes : Bytes) (m : Message) → from_bytes bytes ≡ ok m → Parsed bytes m
unfolding from_bytes
from_bytes-Parsed bytes m h = elim (Option-cases (type_from_u8 (get_or bytes 4 0))) [
  | inl none_such ↦ ground arith
  | inr (t, kind) ↦ parse_payload-Parsed bytes t m kind (ground arith)
]

-- Bytes from which a message is read are that message's frame with other bytes behind it.
pub to_bytes-from_bytes :
    (bytes : Bytes) (m : Message)
    → All IsByte bytes
    → from_bytes bytes ≡ ok m
    → to_bytes m ++ drop (5 + length m.payload) bytes ≡ bytes
unfolding from_bytes to_bytes
to_bytes-from_bytes bytes m in_range h =
    let p = from_bytes-Parsed bytes m h in
    let len = length m.payload in
    let size : length (take 4 bytes) ≡ 4 = omega (arith, length-take 4 bytes, p.long) in
    let ranged = All-take IsByte 4 bytes in_range in
    let small : len < 256 ^ 4 = rw (← p.counted) (from_be_lt_of 4 (take 4 bytes) ranged size) in
    let fits : len % 2 ^ 32 ≡ from_be (take 4 bytes) = omega (arith, small, p.counted) in
    let head : be_bytes 4 (len % 2 ^ 32) ≡ take 4 bytes =
      rw fits (be_bytes_of 4 (take 4 bytes) ranged size) in
    let tail : m.payload ++ drop (5 + len) bytes ≡ drop 5 bytes =
      ap (λ (l : Bytes). l ++ drop (5 + len) bytes) (sym p.body)
      ∙ ap (λ (l : Bytes). take len (drop 5 bytes) ++ l) (sym (drop-drop 5 len bytes))
      ∙ take-append_drop len (drop 5 bytes) in
    to_bytes-append m (drop (5 + len) bytes)
    ∙ ap (λ (l : Bytes). l ++ (type_to_u8 m.msg_type ∷ (m.payload ++ drop (5 + len) bytes))) head
    ∙ rw (type_to_u8-type_from_u8 _ _ p.kind, tail)
        (sym (take-get_or-drop 4 bytes 0 (omega (arith, p.long))))
