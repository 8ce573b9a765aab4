-- ===== src/Session/Manager.antt =====
-- src/vpn/session.rs, `SessionManager`: the table of sessions by remote node. The lock makes each call
-- one step on the table.
pub mod Cleanup
pub mod Reuse
use ll_vpn.Common.{
  ℕ, Bool, true, false, not, List, [], ◌∷◌, Option, none, some, if◌then◌else◌, ite, keep, length,
  Result, ok, err, Bytes,
}
use ll_vpn.Common.HashMap
use ll_vpn.Common.HashMap.{HashMap}
use ll_vpn.NodeId.{NodeId, node_id_eq}
use ll_vpn.Session.{
  Session, SessionState, SessionError, not_found, with_timeout, is_expired, is_active, touch,
  transition, set_keys, secure_close, from_secs, default_session_timeout_secs,
}

-- `struct SessionManager`
pub record SessionManager : Type 0 where
  pub sessions : HashMap NodeId Session
  pub local_id : NodeId
  pub default_timeout : ℕ

unfoldable pub new_manager : NodeId → SessionManager
new_manager local = record {
  sessions = [];
  local_id = local;
  default_timeout = from_secs default_session_timeout_secs;
}

unfoldable pub manager_with_timeout : NodeId → ℕ → SessionManager
manager_with_timeout local timeout = record {
  sessions = [];
  local_id = local;
  default_timeout = timeout;
}

-- The clock is read when the old session is judged, and for each of the two sessions that the code
-- makes: one to return and one for the table.
module _ (to_hex : NodeId → Bytes) (checked made stored : ℕ) where
  unfoldable pub create : SessionManager → NodeId → SessionManager × Session
  create m remote = (
    record m {
      sessions =
          HashMap.insert remote (with_timeout to_hex stored m.local_id remote m.default_timeout)
            m.sessions;
    },
    with_timeout to_hex made m.local_id remote m.default_timeout,
  )

  unfoldable pub get_or_create : SessionManager → NodeId → SessionManager × Session
  unfolding create
  get_or_create m remote = elim (HashMap.get remote m.sessions) [
    | none ↦ create m remote
    | some session ↦ if is_expired checked session then create m remote else (m, session)
  ]

unfoldable pub get : SessionManager → NodeId → Option Session
get m remote = HashMap.get remote m.sessions

-- The guard that `get_mut` would return is never made.
unfoldable pub get_mut : SessionManager → NodeId → Option Session
get_mut m remote = none

-- `if let Some(session) = sessions.get_mut(..) { .. } else { Err(NotFound) }`, with what is done to
-- the session.
unfoldable pub with_session :
    SessionManager
    → NodeId
    → (Session → Session × Result SessionError (Unit {0}))
    → SessionManager × Result SessionError (Unit {0})
with_session m remote method = elim (HashMap.get remote m.sessions) [
  | none ↦ (m, err (not_found remote))
  | some session ↦
      let (changed, result) = method session in
      (record m { sessions = HashMap.update remote (λ _. changed) m.sessions }, result)
]

unfoldable pub update_state :
    ℕ → SessionManager → NodeId → SessionState → SessionManager × Result SessionError (Unit {0})
update_state now m remote new_state = with_session m remote (λ s. transition now s new_state)

unfoldable pub manager_set_keys :
    ℕ → SessionManager → NodeId → Bytes → Bytes → SessionManager × Result SessionError (Unit {0})
manager_set_keys now m remote send recv =
    with_session m remote (λ s. (set_keys now s send recv, ok tt))

unfoldable pub manager_touch :
    ℕ → SessionManager → NodeId → SessionManager × Result SessionError (Unit {0})
manager_touch now m remote = with_session m remote (λ s. (touch now s, ok tt))

unfoldable pub remove : SessionManager → NodeId → SessionManager × Option Session
remove m remote =
    (record m { sessions = HashMap.remove remote m.sessions }, HashMap.get remote m.sessions)

-- The session is closed when it has left the table, so the table shows only that it is gone.
unfoldable pub secure_remove : SessionManager → NodeId → SessionManager
secure_remove m remote = record m { sessions = HashMap.remove remote m.sessions }

-- The ids whose sessions have expired; the clock is read once for the whole walk.
unfoldable pub expired_ids : ℕ → HashMap NodeId Session → List NodeId
expired_ids now [] = []
expired_ids now ((id, session) ∷ rest) =
    let later = expired_ids now rest in if is_expired now session then id ∷ later else later

unfoldable pub remove_each : List NodeId → HashMap NodeId Session → HashMap NodeId Session
remove_each [] sessions = sessions
remove_each (id ∷ ids) sessions = remove_each ids (HashMap.remove id sessions)

unfoldable pub cleanup_expired : ℕ → SessionManager → SessionManager × List NodeId
unfolding expired_ids remove_each
cleanup_expired now m =
    let expired = expired_ids now m.sessions in
    (record m { sessions = remove_each expired m.sessions }, expired)

unfoldable pub active_sessions : ℕ → SessionManager → List Session
active_sessions now m = keep (is_active now) (HashMap.values m.sessions)

unfoldable pub session_count : SessionManager → ℕ
session_count m = length m.sessions

unfoldable pub has_active_session : ℕ → SessionManager → NodeId → Bool
has_active_session now m remote = elim (HashMap.get remote m.sessions) [
  | none ↦ false
  | some s ↦ is_active now s
]
