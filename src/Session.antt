-- ===== src/Session.antt =====
-- src/vpn/session.rs: a session between two nodes, its state machine, keys and counters. An `Instant`
-- or a `Duration` is a number of nanoseconds, and each reading of the clock is an argument.
pub mod Machine
pub mod Counters
pub mod Manager
mod Tests
use ll_vpn.Common.{
  ℕ, ◌+◌, ◌-◌, ◌*◌, ◌%◌, ◌^◌, Bool, true, false, not, ◌&&◌, List, [], ◌∷◌, ◌++◌, Option, none, some,
  ltb, if◌then◌else◌, ite, take, Result, ok, err, Bytes,
}
use ll_vpn.NodeId.{NodeId}

-- `Duration::from_secs`
abbrev pub from_secs : ℕ → ℕ
from_secs n = n * 1000000000

abbrev pub default_session_timeout_secs : ℕ
default_session_timeout_secs = 1800

abbrev pub default_key_rotation_secs : ℕ
default_key_rotation_secs = 86400

-- `Instant::elapsed`, which is 0 for an instant that is not past.
abbrev pub elapsed : ℕ → ℕ → ℕ
elapsed now since = now - since

-- `enum SessionState`
pub data SessionState : Type 0 where
  init handshake established closing closed : SessionState

unfoldable pub SessionState-discrete : Discrete SessionState
SessionState-discrete = hlevel

-- What the text of an `InvalidState` says.
pub data StateFault : Type 0 where
  cannot_transition : SessionState → SessionState → StateFault
  stale_counter : ℕ → ℕ → StateFault

-- `enum SessionError`; the last two are never made.
pub data SessionError : Type 0 where
  not_found : NodeId → SessionError
  invalid_state : StateFault → SessionError
  expired creation_failed : SessionError

-- `struct SessionKeys`
pub record SessionKeys : Type 0 where
  pub send_key : Bytes
  pub recv_key : Bytes
  pub created_at : ℕ

-- `struct Session`
pub record Session : Type 0 where
  pub id : Bytes
  pub local_id : NodeId
  pub remote_id : NodeId
  pub state : SessionState
  pub keys : Option SessionKeys
  pub created_at : ℕ
  pub last_active : ℕ
  pub timeout : ℕ
  pub send_counter : ℕ
  pub recv_counter : ℕ

unfoldable pub new_keys : ℕ → Bytes → Bytes → SessionKeys
new_keys now send recv = record { send_key = send; recv_key = recv; created_at = now }

unfoldable pub needs_rotation : ℕ → SessionKeys → Bool
needs_rotation now k = ltb (from_secs default_key_rotation_secs) (elapsed now k.created_at)

-- `to_hex` is `hex::encode`, of a crate; eight of its digits name each end.
module _ (to_hex : NodeId → Bytes) where
  unfoldable pub new : ℕ → NodeId → NodeId → Session
  new now local remote = record {
    id = take 8 (to_hex local) ++ (b'-' ∷ take 8 (to_hex remote));
    local_id = local;
    remote_id = remote;
    state = init;
    keys = none;
    created_at = now;
    last_active = now;
    timeout = from_secs default_session_timeout_secs;
    send_counter = 0;
    recv_counter = 0;
  }

  unfoldable pub with_timeout : ℕ → NodeId → NodeId → ℕ → Session
  unfolding new
  with_timeout now local remote timeout = record (new now local remote) { timeout = timeout }

unfoldable pub is_expired : ℕ → Session → Bool
is_expired now s = ltb s.timeout (elapsed now s.last_active)

unfoldable pub is_active : ℕ → Session → Bool
unfolding is_expired SessionState-discrete
is_active now s = ite (SessionState-discrete s.state established) (not (is_expired now s)) false

unfoldable pub touch : ℕ → Session → Session
touch now s = record s { last_active = now }

unfoldable pub valid_transitions : SessionState → List SessionState
valid_transitions init = handshake ∷ closed ∷ []
valid_transitions handshake = established ∷ closed ∷ []
valid_transitions established = closing ∷ []
valid_transitions closing = closed ∷ []
valid_transitions closed = []

unfoldable pub contains : List SessionState → SessionState → Bool
unfolding SessionState-discrete
contains [] t = false
contains (s ∷ ss) t = ite (SessionState-discrete s t) true (contains ss t)

-- A method with `&mut self` returns the session that it leaves behind.
unfoldable pub transition : ℕ → Session → SessionState → Session × Result SessionError (Unit {0})
unfolding valid_transitions contains touch
transition now s new_state =
    if contains (valid_transitions s.state) new_state
    then (touch now (record s { state = new_state }), ok tt)
    else (s, err (invalid_state (cannot_transition s.state new_state)))

unfoldable pub set_keys : ℕ → Session → Bytes → Bytes → Session
unfolding touch new_keys
set_keys now s send recv = touch now (record s { keys = some (new_keys now send recv) })

unfoldable pub needs_key_rotation : ℕ → Session → Bool
unfolding needs_rotation
needs_key_rotation now s = elim s.keys [ none ↦ false | some k ↦ needs_rotation now k ]

-- The keys are taken out, overwritten and dropped: nothing of them is left in the session.
unfoldable pub secure_close : Session → Session
secure_close s = record s { keys = none; state = closed }

-- The counters are `u64`: `+ 1` wraps (in a build with overflow checks it panics instead).
abbrev pub u64 : ℕ → ℕ
u64 n = n % 2 ^ 64

unfoldable pub next_send_counter : ℕ → Session → Session × ℕ
unfolding touch
next_send_counter now s =
    (touch now (record s { send_counter = u64 (s.send_counter + 1) }), s.send_counter)

unfoldable pub verify_recv_counter : ℕ → Session → ℕ → Session × Result SessionError (Unit {0})
unfolding touch
verify_recv_counter now s counter =
    if ltb counter s.recv_counter
    then (s, err (invalid_state (stale_counter counter s.recv_counter)))
    else (touch now (record s { recv_counter = u64 (counter + 1) }), ok tt)
