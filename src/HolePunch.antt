-- ===== src/HolePunch.antt =====
-- src/vpn/hole_punch.rs: UDP hole punching. What the socket does is an argument: whether one could be made,
-- and for each attempt what `send_to` and `recv_from` return. A socket address is of an arbitrary type.
pub mod Packet
pub mod Outcome
mod Tests
use ll_vpn.Common.{
  ℕ, zero, suc, ◌-◌, Bool, true, false, List, [], ◌∷◌, ◌++◌, Option, none, some, ltb, if◌then◌else◌,
  ite, length, take, drop, replicate, Result, ok, err, Bytes,
}
use ll_vpn.Common.HashMap
use ll_vpn.Common.HashMap.{HashMap}
use ll_vpn.NodeId.{NodeId, node_id_eq, Bytes-discrete}

abbrev pub punch_retry_count : ℕ
punch_retry_count = 3

abbrev pub punch_packet_size : ℕ
punch_packet_size = 64

-- `enum NatType`
pub data NatType : Type 0 where
  cone restricted symmetric unknown : NatType

unfoldable pub is_punchable : NatType → Bool
is_punchable cone = true
is_punchable restricted = true
is_punchable symmetric = false
is_punchable unknown = false

-- What the text of a failure says.
pub data LastError : Type 0 where
  no_response send_error recv_error : LastError

pub data Reason : Type 0 where
  symmetric_nat : Reason
  all_attempts_failed : LastError → Reason

-- `enum PunchResult`; `Failed` is never made.
pub data PunchResult : Type 0 where
  success failed : PunchResult
  degraded_to_relay : Reason → PunchResult

-- The errors of `punch_hole` and `send_keepalive`.
pub data PunchError : Type 0 where
  bind_failed timeout_failed nonblocking_failed : PunchError
  peer_not_punched no_udp_socket keepalive_failed : PunchError

-- What `recv_from` returns.
pub data Received (Addr : Type 0) : Type 0 where
  datagram : Bytes → Addr → Received Addr
  would_block recv_failed : Received Addr

-- The two calls of an attempt.
pub record Attempt (Addr : Type 0) : Type 0 where
  pub sent : Bool
  pub received : Received Addr

-- `struct HolePunchConn`
pub record HolePunchConn (Addr : Type 0) : Type 0 where
  pub target : NodeId
  pub public_addr : Addr
  pub started : ℕ
  pub retries : ℕ
  pub established : Bool

-- `struct HolePunchManager`; of the socket only whether one is bound. No method reads `running`.
pub record HolePunchManager (Addr : Type 0) : Type 0 where
  pub local_id : NodeId
  pub nat_type : NatType
  pub active_punches : HashMap NodeId (HolePunchConn Addr)
  pub punched_peers : HashMap NodeId Addr
  pub socket : Bool

-- `b"LLHP"`
abbrev pub magic : Bytes
magic = 76 ∷ 76 ∷ 72 ∷ 80 ∷ []

-- `resize` to the size of a packet, and the buffer of that size after a datagram was read into it.
abbrev pub resized : Bytes → Bytes
resized bytes = take punch_packet_size bytes ++ replicate (punch_packet_size - length bytes) 0

unfoldable pub build_punch_packet : NodeId → NodeId → Bytes
build_punch_packet local target = resized (magic ++ (take 28 local.bytes ++ take 28 target.bytes))

-- `==` on slices.
abbrev pub same_bytes : Bytes → Bytes → Bool
same_bytes a b = ite (Bytes-discrete a b) true false

unfoldable pub is_valid_punch_response : Bytes → NodeId → Bool
is_valid_punch_response buf expected =
    if ltb (length buf) 32
    then false
    else if same_bytes (take 4 buf) magic
    then same_bytes (take 28 (drop 4 buf)) (take 28 expected.bytes)
    else false

module _ {Addr : Type 0} where
  unfoldable pub new : NodeId → HolePunchManager Addr
  new local = record {
    local_id = local;
    nat_type = unknown;
    active_punches = [];
    punched_peers = [];
    socket = false;
  }

  unfoldable pub bind_socket : HolePunchManager Addr → HolePunchManager Addr
  bind_socket m = record m { socket = true }

  unfoldable pub set_nat_type : HolePunchManager Addr → NatType → HolePunchManager Addr
  set_nat_type m t = record m { nat_type = t }

  unfoldable pub detect_nat_type : HolePunchManager Addr → HolePunchManager Addr × NatType
  detect_nat_type m = (record m { nat_type = cone }, cone)

  unfoldable pub is_symmetric_nat : HolePunchManager Addr → Bool
  is_symmetric_nat m = elim m.nat_type [
    | cone ↦ false
    | restricted ↦ false
    | symmetric ↦ true
    | unknown ↦ false
  ]

  -- The address that an answer of the peer came from, if what was received is one.
  unfoldable pub answer : NodeId → Received Addr → Option Addr
  answer remote (datagram bytes src) =
      if is_valid_punch_response (resized bytes) remote then some src else none
  answer remote would_block = none
  answer remote recv_failed = none

  -- `last_error` after the two calls of an attempt without an answer.
  unfoldable pub error_after : Attempt Addr → LastError → LastError
  error_after a last = elim a.received [
    | recv_failed ↦ recv_error
    | would_block ↦ if a.sent then last else send_error
    | datagram _ _ ↦ if a.sent then last else send_error
  ]

  -- The loop of `punch_hole`, over the attempts that are left.
  unfoldable pub attempts : NodeId → List (Attempt Addr) → LastError → Result LastError Addr
  attempts remote [] last = err last
  attempts remote (a ∷ rest) last =
      let later = attempts remote rest (error_after a last) in
      elim (answer remote a.received) [ some src ↦ ok src | none ↦ later ]

  -- What is left after the loop.
  unfoldable pub conclude :
      HolePunchManager Addr → NodeId → Result LastError Addr → HolePunchManager Addr × PunchResult
  conclude m remote (ok src) = (
    record m {
      punched_peers = HashMap.insert remote src m.punched_peers;
      active_punches = HashMap.remove remote m.active_punches;
    },
    success,
  )
  conclude m remote (err last) = (
    record m { active_punches = HashMap.remove remote m.active_punches },
    degraded_to_relay (all_attempts_failed last),
  )

  unfoldable pub register_punch : ℕ → HolePunchManager Addr → NodeId → Addr → HolePunchManager Addr
  register_punch now m remote addr =
      let conn : HolePunchConn Addr = record {
        target = remote;
        public_addr = addr;
        started = now;
        retries = 0;
        established = false;
      } in
      record m { active_punches = HashMap.insert remote conn m.active_punches }

  -- The socket that is made where none is bound: what went wrong, if something did.
  unfoldable pub socket_or_new :
      Result PunchError (Unit {0}) → HolePunchManager Addr → Result PunchError (Unit {0})
  socket_or_new made m = if m.socket then ok tt else made

  unfoldable pub punch_hole :
      Result PunchError (Unit {0})
      → Attempt Addr × Attempt Addr × Attempt Addr
      → ℕ
      → HolePunchManager Addr
      → NodeId
      → Addr
      → HolePunchManager Addr × Result PunchError PunchResult
  punch_hole made (a1, a2, a3) now m remote addr =
      if is_symmetric_nat m
      then (m, ok (degraded_to_relay symmetric_nat))
      else if HashMap.contains_key remote m.punched_peers
      then (m, ok success)
      else elim (socket_or_new made m) [
        | err e ↦ (m, err e)
        | ok _ ↦
            let (last, r) =
              conclude (register_punch now m remote addr) remote
                (attempts remote (a1 ∷ a2 ∷ a3 ∷ []) no_response) in
            (last, ok r)
      ]

  unfoldable pub send_keepalive :
      Bool → HolePunchManager Addr → NodeId → Result PunchError (Unit {0})
  send_keepalive sent m peer = elim (HashMap.get peer m.punched_peers) [
    | none ↦ err peer_not_punched
    | some _ ↦
        if m.socket then (if sent then ok tt else err keepalive_failed) else err no_udp_socket
  ]

  unfoldable pub get_punched_addr : HolePunchManager Addr → NodeId → Option Addr
  get_punched_addr m peer = HashMap.get peer m.punched_peers

  unfoldable pub remove_peer : HolePunchManager Addr → NodeId → HolePunchManager Addr
  remove_peer m peer = record m {
    punched_peers = HashMap.remove peer m.punched_peers;
    active_punches = HashMap.remove peer m.active_punches;
  }

  unfoldable pub clear : HolePunchManager Addr → HolePunchManager Addr
  clear m = record m { punched_peers = []; active_punches = [] }
