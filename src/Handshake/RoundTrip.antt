-- ===== src/Handshake/RoundTrip.antt =====
-- src/vpn/handshake.rs, the bytes of a payload with its timestamp.
use ll_vpn.Common.{
  ℕ, ◌+◌, ◌^◌, ◌≤◌, ◌<◌, ◌≡◌, [], ◌∷◌, ◌++◌, some, inl, inr, arith, length, length-append,
  length-take, take, drop, Bytes, be_bytes, from_be, length-be_bytes, from_be-be_bytes, be_bytes_of,
  take-append_of, drop-append_of, ge→ltb, ltb→ge, ltb, All, All-take, IsByte, Bool-cases,
  take-append_drop, ok,
}
use ll_vpn.Handshake.{
  TimestampedPayload, to_bytes, from_bytes, new_payload, validate, checked, check_timestamp,
  check_replay, contains,
}

-- A payload with a timestamp of 64 bits is read back from its bytes.
pub timestamped-round_trip :
    (p : TimestampedPayload) → p.timestamp < 2 ^ 64 → from_bytes (to_bytes p) ≡ some p
unfolding from_bytes to_bytes
timestamped-round_trip p small =
    let head = be_bytes 8 p.timestamp in
    rw (
      ge→ltb (length (head ++ p.payload)) 8
          (omega (arith, length-append head p.payload, length-be_bytes 8 p.timestamp)),
      take-append_of 8 head p.payload (length-be_bytes 8 _),
      drop-append_of 8 head p.payload (length-be_bytes 8 _),
      from_be-be_bytes 8 p.timestamp (omega arith),
    )

-- Bytes that are read as a payload with a timestamp are exactly its bytes.
pub timestamped_read-written :
    (bytes : Bytes) (p : TimestampedPayload)
    → All IsByte bytes
    → from_bytes bytes ≡ some p
    → to_bytes p ≡ bytes
unfolding from_bytes to_bytes
timestamped_read-written bytes p in_range h = elim (Bool-cases (ltb (length bytes) 8)) [
  | inl short ↦ absurd (ground arith)
  | inr long ↦
      let v : TimestampedPayload = record {
        timestamp = from_be (take 8 bytes);
        payload = drop 8 bytes;
      } in
      let same : v ≡ p = ground arith in
      let size : length (take 8 bytes) ≡ 8 =
        omega (arith, length-take 8 bytes, ltb→ge (length bytes) 8 long) in
      rw (← same, be_bytes_of 8 (take 8 bytes) (All-take IsByte 8 bytes in_range) size)
        (take-append_drop 8 bytes)
]

-- A fresh timestamp passes where none was used before.
pub check_timestamp-fresh :
    (now t : ℕ) (payload : Bytes)
    → t + 60 < 2 ^ 64
    → now ≤ t + 60
    → check_timestamp now [] (to_bytes (new_payload t payload)) ≡ ok (t ∷ [])
unfolding check_timestamp new_payload checked validate check_replay contains
check_timestamp-fresh now t payload small fresh =
    let p : TimestampedPayload = record { timestamp = t; payload = payload } in
    rw (timestamped-round_trip p (omega arith), check_timestamp) (ground arith)
