-- ===== src/Frame/Stream.antt =====
-- src/vpn/relay.rs, the server's side of a connection: `read_message` and `handle_connection`.
use mathlib.Core.List.{append-nil, append_assoc}
use ll_vpn.Common.{
  Bool-cases, ℕ, suc, ◌*◌, ◌%◌, ◌^◌, ◌≤◌, ◌<◌, ◌≡◌, refl, sym, ap, ◌∙◌, Bool, true, false, List, [],
  ◌∷◌, ◌++◌, Option, none, some, inl, inr, arith, length, length-append, take, drop, replicate,
  get_or, Result, ok, err, All, Bytes, be_bytes, from_be, length-be_bytes, from_be-be_bytes,
  take-append, drop-append, ge→ltb, ltb, if◌then◌else◌,
}
use ll_vpn.NodeId.{NodeId, filled}
use ll_vpn.Frame.{
  Message, IoKind, unexpected_eof, would_block, other_kind, RelayError, io_error, parse_error,
  invalid_message_type, message_too_large, type_from_u8, type_to_u8, to_bytes,
}
use ll_vpn.Frame.RoundTrip.{to_bytes-append, type_from_u8-type_to_u8}

-- `TcpStream` as the reader sees it: the bytes to come, and how a read ends that finds too few.
pub record TcpStream : Type 0 where
  pub incoming : Bytes
  pub at_end : IoKind

-- A step on the stream that may fail.
abbrev pub Read : Type 0 → Type 0
Read A = TcpStream → Result RelayError A × TcpStream

abbrev pub continue :
    {A B : Type 0}
    → (A → Read B)
    → Result RelayError A × TcpStream
    → Result RelayError B × TcpStream
continue f (ok a, t) = f a t
continue f (err e, t) = (err e, t)

infixl 5 ◌>>=◌
abbrev pub ◌>>=◌ : {A B : Type 0} → Read A → (A → Read B) → Read B
◌>>=◌ m f s = continue f (m s)

abbrev pub pure : {A : Type 0} → A → Read A
pure a s = (ok a, s)

abbrev pub fail : {A : Type 0} → RelayError → Read A
fail e s = (err e, s)

-- `read_exact`: a failed read has used up what was there.
unfoldable pub read_exact : ℕ → TcpStream → Result IoKind Bytes × TcpStream
read_exact n s =
    if ltb (length s.incoming) n
    then (err s.at_end, record s { incoming = [] })
    else (ok (take n s.incoming), record s { incoming = drop n s.incoming })

-- The start of `read_message`: a stream that ends, or has nothing yet, is no error.
unfoldable pub length_or_end : Result IoKind Bytes → Result RelayError (Option ℕ)
length_or_end (ok len_buf) = ok (some (from_be len_buf))
length_or_end (err unexpected_eof) = ok none
length_or_end (err would_block) = ok none
length_or_end (err other_kind) = err (io_error other_kind)

unfoldable pub read_length : Read (Option ℕ)
unfolding length_or_end
read_length s = let (r, t) = read_exact 4 s in (length_or_end r, t)

-- `read_exact(..)?`
unfoldable pub or_io_error : Result IoKind Bytes → Result RelayError Bytes
or_io_error (ok bytes) = ok bytes
or_io_error (err k) = err (io_error k)

unfoldable pub exactly : ℕ → Read Bytes
unfolding or_io_error
exactly n s = let (r, t) = read_exact n s in (or_io_error r, t)

-- The largest payload that the server reads: 1 MB.
abbrev pub max_payload : ℕ
max_payload = 1024 * 1024

-- The sender is not part of a frame: the code puts the zero id there.
abbrev pub typed_message : Bytes → Bytes → Read (Option (NodeId × Message))
typed_message type_buf payload = elim (type_from_u8 (get_or type_buf 0 0)) [
  | none ↦ fail (parse_error (invalid_message_type (get_or type_buf 0 0)))
  | some t ↦ pure (some (filled 0, record { msg_type = t; payload = payload }))
]

abbrev pub rest_of_body : ℕ → Bytes → Read (Option (NodeId × Message))
rest_of_body len type_buf = do payload ← exactly len; typed_message type_buf payload

unfoldable pub read_body : ℕ → Read (Option (NodeId × Message))
read_body len = do type_buf ← exactly 1; rest_of_body len type_buf

unfoldable pub body_unless_end : Option ℕ → Read (Option (NodeId × Message))
body_unless_end none = pure none
body_unless_end (some len) =
    if ltb max_payload len then fail (parse_error message_too_large) else read_body len

unfoldable pub read_message : Read (Option (NodeId × Message))
unfolding body_unless_end
read_message = do len ← read_length; body_unless_end len

-- What is done with the outcome of a read: a message is recorded, all else ends the loop.
abbrev pub after_read :
    (TcpStream → List (NodeId × Message) → List (NodeId × Message))
    → List (NodeId × Message)
    → Result RelayError (Option (NodeId × Message)) × TcpStream
    → List (NodeId × Message)
after_read loop received (ok (some entry), s) = loop s (received ++ (entry ∷ []))
after_read loop received (ok none, s) = received
after_read loop received (err e, s) = received

-- The loop of `handle_connection`. The list holds what the tests of the flag `running` find, and
-- ends the model's run where the code would go on.
unfoldable pub handle_connection :
    List Bool → TcpStream → List (NodeId × Message) → List (NodeId × Message)
handle_connection [] s received = received
handle_connection (false ∷ running) s received = received
handle_connection (true ∷ running) s received =
    after_read (handle_connection running) received (read_message s)

-- What `TcpServer::send` puts on the wire for a list of messages.
unfoldable pub frames : List Message → Bytes
frames [] = []
frames (m ∷ ms) = to_bytes m ++ frames ms

abbrev pub arrived : List Message → List (NodeId × Message)
arrived [] = []
arrived (m ∷ ms) = (filled 0, m) ∷ arrived ms

bind_ok :
    {A B : Type 0} (m : Read A) (f : A → Read B) (s : TcpStream) {a : A} {t : TcpStream}
    → m s ≡ (ok a, t)
    → ◌>>=◌ m f s ≡ f a t
bind_ok m f s h = ap (continue f) h

-- A stream whose next bytes are known.
abbrev next : Bytes → Bytes → IoKind → TcpStream
next bytes rest k = record { incoming = bytes ++ rest; at_end = k }

abbrev pub remaining : Bytes → IoKind → TcpStream
remaining rest k = record { incoming = rest; at_end = k }

module _ (bytes rest : Bytes) (k : IoKind) where
  read_exact-append : read_exact (length bytes) (next bytes rest k) ≡ (ok bytes, remaining rest k)
  unfolding read_exact
  read_exact-append = rw (
    ge→ltb (length (bytes ++ rest)) (length bytes) (omega (arith, length-append bytes rest)),
    take-append bytes rest,
    drop-append bytes rest,
  )

  exactly-append :
      (n : ℕ) → length bytes ≡ n → exactly n (next bytes rest k) ≡ (ok bytes, remaining rest k)
  unfolding exactly
  exactly-append n size = rw (← size, read_exact-append)

  read_length-append :
      length bytes ≡ 4
      → read_length (next bytes rest k) ≡ (ok (some (from_be bytes)), remaining rest k)
  unfolding read_length
  read_length-append size = rw (← size, read_exact-append)

module _ (m : Message) (rest : Bytes) (k : IoKind) where
  abbrev pub after_header : TcpStream
  after_header = remaining (type_to_u8 m.msg_type ∷ (m.payload ++ rest)) k

  read_body-payload :
      read_body (length m.payload) after_header ≡ (ok (some (filled 0, m)), remaining rest k)
  unfolding read_body
  read_body-payload =
      bind_ok (exactly 1) (rest_of_body (length m.payload)) after_header
        (exactly-append (type_to_u8 m.msg_type ∷ []) (m.payload ++ rest) k 1 refl)
      ∙ bind_ok (exactly (length m.payload)) (typed_message (type_to_u8 m.msg_type ∷ []))
          (remaining (m.payload ++ rest) k)
          (exactly-append m.payload rest k (length m.payload) refl)
      ∙ rw (type_from_u8-type_to_u8 m.msg_type, typed_message)

  read_length-header :
      length m.payload < 2 ^ 32
      → read_length (remaining (to_bytes m ++ rest) k)
        ≡ (ok (some (length m.payload)), after_header)
  read_length-header short =
      let head = be_bytes 4 (length m.payload % 2 ^ 32) in
      let value : from_be head ≡ length m.payload =
        from_be-be_bytes 4 (length m.payload % 2 ^ 32) (omega arith) ∙ omega arith in
      rw (to_bytes-append m rest) (read_length-append head _ k (length-be_bytes 4 _) ∙ rw value)

  -- For a payload below 2 ^ 32 bytes: the server takes one frame off the stream and leaves what
  -- follows it, if the payload is no longer than 1 MB; a longer one is refused as soon as its header
  -- is read.
  pub read_message-to_bytes :
      length m.payload < 2 ^ 32
      → read_message (remaining (to_bytes m ++ rest) k) ≡ (
          if ltb max_payload (length m.payload)
          then (err (parse_error message_too_large), after_header)
          else (ok (some (filled 0, m)), remaining rest k))
  unfolding read_message
  read_message-to_bytes short =
      bind_ok read_length body_unless_end _ (read_length-header short)
      ∙ elim (Bool-cases (ltb max_payload (length m.payload))) [
        | inl large ↦ rw large
        | inr small ↦ rw small read_body-payload
      ]

-- Where the stream has nothing more, the loop ends.
end_of_stream :
    (received : List (NodeId × Message)) (k : IoKind)
    → handle_connection (true ∷ []) (remaining [] k) received ≡ received
unfolding handle_connection read_message read_length read_exact
end_of_stream received unexpected_eof = refl
end_of_stream received _ = refl

-- Frames with payloads of at most 1 MB that follow each other to the end of the stream all arrive, in
-- order and unchanged, behind what was received before, if the server keeps running for one reading
-- more than there are frames. Each is said to come from the id of zeros.
pub handle_connection-frames :
    (ms : List Message) (received : List (NodeId × Message)) (k : IoKind)
    → All (λ m. length m.payload ≤ max_payload) ms
    → handle_connection (replicate (suc (length ms)) true) (remaining (frames ms) k) received
      ≡ received ++ arrived ms
unfolding handle_connection frames
handle_connection-frames [] received k h = end_of_stream received k ∙ sym (append-nil received)
handle_connection-frames (m ∷ ms) received k h =
    let loop = handle_connection (replicate (suc (length ms)) true) in
    let arrives : read_message (remaining (to_bytes m ++ frames ms) k)
        ≡ (ok (some (filled 0, m)), remaining (frames ms) k) =
      read_message-to_bytes m (frames ms) k (omega arith)
      ∙ rw (ge→ltb max_payload (length m.payload) h.0) in
    ap (after_read loop received) arrives
    ∙ handle_connection-frames ms (received ++ ((filled 0, m) ∷ [])) k h.1
    ∙ append_assoc received ((filled 0, m) ∷ []) (arrived ms)
