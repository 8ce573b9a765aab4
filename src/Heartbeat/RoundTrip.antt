-- ===== src/Heartbeat/RoundTrip.antt =====
-- src/vpn/heartbeat.rs, the bytes of a message.
use mathlib.Core.List.{append_assoc}
use ll_vpn.Common.{
  ℕ, ◌+◌, ◌^◌, ◌≤◌, ◌<◌, ◌≡◌, refl, ap, subst, ◌∙◌, [], ◌∷◌, ◌++◌, some, inl, inr, arith, length,
  length-append, length-take, length-drop, take, drop, Bytes, be_bytes, length-be_bytes,
  from_be-be_bytes, be_bytes_of, from_be_lt_of, drop-drop, take-append_of, drop-append_of, ge→ltb,
  ltb→ge, ltb, All, All-take, All-drop, IsByte, Option-cases, Bool-cases, take-append_drop,
}
use ll_vpn.NodeId.{NodeId, IsNodeId}
use ll_vpn.NodeId
use ll_vpn.Heartbeat.{
  HeartbeatMsgType, request, response, HeartbeatMessage, type_from_u8, type_to_u8, to_bytes,
  from_bytes, after_type,
}

-- What the fields of the struct can hold.
pub record IsMessage (m : HeartbeatMessage) : Type 0 where
  pub sender : IsNodeId m.sender_id
  pub timed : m.timestamp < 2 ^ 64
  pub numbered : m.sequence < 2 ^ 64

pub type_from_u8-type_to_u8 : (t : HeartbeatMsgType) → type_from_u8 (type_to_u8 t) ≡ some t
unfolding type_from_u8 type_to_u8
type_from_u8-type_to_u8 request = refl
type_from_u8-type_to_u8 response = refl

type_to_u8-type_from_u8 :
    (b : ℕ) (t : HeartbeatMsgType) → type_from_u8 b ≡ some t → type_to_u8 t ≡ b
unfolding type_from_u8 type_to_u8
type_to_u8-type_from_u8 b t h = ground arith

module _ (m : HeartbeatMessage) (rest : Bytes) (h : IsMessage m) where
  abbrev times : Bytes
  times = be_bytes 8 m.timestamp ++ (be_bytes 8 m.sequence ++ rest)

  to_bytes-append : to_bytes m ++ rest ≡ type_to_u8 m.msg_type ∷ (m.sender_id.bytes ++ times)
  unfolding to_bytes
  to_bytes-append =
      ap (λ (l : Bytes). type_to_u8 m.msg_type ∷ l)
        (append_assoc m.sender_id.bytes (be_bytes 8 m.timestamp ++ be_bytes 8 m.sequence) rest
          ∙ ap (λ (l : Bytes). m.sender_id.bytes ++ l)
              (append_assoc (be_bytes 8 m.timestamp) (be_bytes 8 m.sequence) rest))

  fields : after_type m.msg_type (m.sender_id.bytes ++ times) ≡ m
  unfolding after_type NodeId.from_bytes
  fields =
      let head = be_bytes 8 m.timestamp in
      let later = be_bytes 8 m.sequence ++ rest in
      rw (
        take-append_of 32 m.sender_id.bytes times h.sender.size,
        drop-append_of 32 m.sender_id.bytes times h.sender.size,
        take-append_of 8 head later (length-be_bytes 8 _),
        from_be-be_bytes 8 m.timestamp (omega (arith, h.timed)),
        ← drop-drop 32 8 (m.sender_id.bytes ++ times),
        drop-append_of 32 m.sender_id.bytes times h.sender.size,
        drop-append_of 8 head later (length-be_bytes 8 _),
        take-append_of 8 (be_bytes 8 m.sequence) rest (length-be_bytes 8 _),
        from_be-be_bytes 8 m.sequence (omega (arith, h.numbered)),
      )

  length-times : length (m.sender_id.bytes ++ times) ≡ 48 + length rest
  length-times = omega (
    arith,
    h.sender.size,
    length-append m.sender_id.bytes times,
    length-append (be_bytes 8 m.timestamp) (be_bytes 8 m.sequence ++ rest),
    length-append (be_bytes 8 m.sequence) rest,
    length-be_bytes 8 m.timestamp,
    length-be_bytes 8 m.sequence,
  )

  -- A message whose fields are in range is read back from its bytes, whatever bytes follow them.
  pub heartbeat-round_trip : from_bytes (to_bytes m ++ rest) ≡ some m
  unfolding from_bytes
  heartbeat-round_trip =
      ap from_bytes to_bytes-append
      ∙ rw (
        ge→ltb (length (type_to_u8 m.msg_type ∷ (m.sender_id.bytes ++ times))) 49
            (omega (arith, length-times)),
        type_from_u8-type_to_u8 m.msg_type,
        fields,
      )

module _ (t : HeartbeatMsgType) (rest : Bytes) (long : 48 ≤ length rest)
    (in_range : All IsByte rest) where
  abbrev read : HeartbeatMessage
  read = after_type t rest

  abbrev number_at : ℕ → Bytes
  number_at i = take 8 (drop i rest)

  number_size : (i : ℕ) → i ≤ 40 → length (number_at i) ≡ 8
  number_size i h = omega (arith, length-take 8 (drop i rest), length-drop i rest)

  number_range : (i : ℕ) → All IsByte (number_at i)
  number_range i = All-take IsByte 8 (drop i rest) (All-drop IsByte i rest in_range)

  read-IsMessage : IsMessage read
  unfolding after_type NodeId.from_bytes
  read-IsMessage = record {
    sender = record {
      size = omega (arith, length-take 32 rest);
      in_range = All-take IsByte 32 rest in_range;
    };
    timed = from_be_lt_of 8 (number_at 32) (number_range 32) (number_size 32 (omega arith));
    numbered = from_be_lt_of 8 (number_at 40) (number_range 40) (number_size 40 (omega arith));
  }

  read_again : to_bytes read ++ drop 48 rest ≡ type_to_u8 t ∷ rest
  unfolding after_type NodeId.from_bytes
  read_again =
      to_bytes-append read (drop 48 rest) read-IsMessage
      ∙ ap (λ (l : Bytes). type_to_u8 t ∷ l)
          (rw (
            be_bytes_of 8 (number_at 32) (number_range 32) (number_size 32 (omega arith)),
            be_bytes_of 8 (number_at 40) (number_range 40) (number_size 40 (omega arith)),
            ← drop-drop 40 8 rest,
            take-append_drop 8 (drop 40 rest),
            ← drop-drop 32 8 rest,
            take-append_drop 8 (drop 32 rest),
            take-append_drop 32 rest,
          ))

-- Bytes that are read as a message are the bytes of that message with other bytes behind them, and its
-- fields are in range.
pub heartbeat_read-written :
    (bytes : Bytes) (m : HeartbeatMessage)
    → All IsByte bytes
    → from_bytes bytes ≡ some m
    → (to_bytes m ++ drop 49 bytes ≡ bytes) × IsMessage m
unfolding from_bytes
heartbeat_read-written [] m in_range h = absurd (ground arith)
heartbeat_read-written (b ∷ rest) m in_range h = elim (Bool-cases (ltb (length rest) 48)) [
  | inl short ↦ absurd (ground arith)
  | inr long ↦ elim (Option-cases (type_from_u8 b)) [
    | inl none_such ↦ absurd (ground arith)
    | inr (t, kind) ↦
        let enough : 48 ≤ length rest = ltb→ge (length rest) 48 long in
        let same : after_type t rest ≡ m = ground arith in
        subst (λ (v : HeartbeatMessage). (to_bytes v ++ drop 48 rest ≡ b ∷ rest) × IsMessage v) same
          (
            read_again t rest enough in_range.1
                ∙ ap (λ (c : ℕ). c ∷ rest) (type_to_u8-type_from_u8 b t kind),
            read-IsMessage t rest enough in_range.1,
          )
  ]
]
