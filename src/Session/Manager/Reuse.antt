-- ===== src/Session/Manager/Reuse.antt =====
-- src/vpn/session.rs, `SessionManager`: its calls as data, the invariant of its table, and the
-- reuse of sessions.
use ll_vpn.Common.{
  ℕ, ◌≡◌, ◌≢◌, refl, true, false, inl, inr, Option, none, some, arith, Bool-cases, Option-cases,
  Bytes, Result,
}
use ll_vpn.Common.HashMap
use ll_vpn.Common.HashMap.{
  HashMap, Distinct, get-insert, get-remove, get-update, insert-Distinct, update-Distinct,
  remove-Distinct,
}
use ll_vpn.NodeId.{NodeId, node_id_eq}
use ll_vpn.Session.{
  Session, SessionState, init, SessionError, is_expired, with_timeout, transition, set_keys, touch,
}
use ll_vpn.Session.Manager.{
  SessionManager, create, get_or_create, update_state, manager_set_keys, manager_touch, remove,
  secure_remove, cleanup_expired, with_session,
}
use ll_vpn.Session.Manager.Cleanup.{cleanup_expired-Distinct, cleanup_expired-exact, has_expired}

-- A call of the manager's interface, with its readings of the clock.
pub data Call : Type 0 where
  obtain : ℕ → ℕ → ℕ → NodeId → Call
  change_state : ℕ → NodeId → SessionState → Call
  give_keys : ℕ → NodeId → Bytes → Bytes → Call
  refresh : ℕ → NodeId → Call
  drop_expired : ℕ → Call
  take_out wipe : NodeId → Call

-- Every session in the table stands under its remote node's id and belongs to this node.
pub record Inv (m : SessionManager) : Type 0 where
  pub distinct : Distinct m.sessions
  pub owned :
      (id : NodeId) (s : Session)
      → HashMap.get id m.sessions ≡ some s
      → (s.remote_id ≡ id) × (s.local_id ≡ m.local_id)

with_session-Inv :
    (m : SessionManager) (id : NodeId) (method : Session → Session × Result SessionError (Unit {0}))
    → ((s : Session)
        → ((method s).0.remote_id ≡ s.remote_id) × ((method s).0.local_id ≡ s.local_id))
    → Inv m
    → Inv (with_session m id method).0
unfolding with_session
with_session-Inv m id method same v = elim (Option-cases (HashMap.get id m.sessions)) [
  | inl e ↦ rw (e, with_session) v
  | inr (s, e) ↦
      rw (e, with_session)
        (record {
          distinct = update-Distinct id (λ _. (method s).0) m.sessions v.distinct;
          owned = λ j t h. ground (
            arith,
            get-update j id (λ _. (method s).0) m.sessions,
            same s,
            v.owned id s e,
            v.owned j t,
          );
        })
]

create-Inv :
    (to_hex : NodeId → Bytes) (checked made stored : ℕ) (m : SessionManager) (id : NodeId)
    → Inv m
    → Inv (create to_hex checked made stored m id).0
unfolding create with_timeout
create-Inv to_hex checked made stored m id v = record {
  distinct = insert-Distinct id _ m.sessions v.distinct;
  owned = λ j t h. ground (
    arith,
    get-insert j id (with_timeout to_hex stored m.local_id id m.default_timeout) m.sessions,
    v.owned j t,
  );
}

get_or_create-Inv :
    (to_hex : NodeId → Bytes) (checked made stored : ℕ) (m : SessionManager) (id : NodeId)
    → Inv m
    → Inv (get_or_create to_hex checked made stored m id).0
unfolding get_or_create
get_or_create-Inv to_hex checked made stored m id v =
    let fresh = create-Inv to_hex checked made stored m id v in
    elim (Option-cases (HashMap.get id m.sessions)) [
      | inl e ↦ rw (e, get_or_create) fresh
      | inr (s, e) ↦ elim (Bool-cases (is_expired checked s)) [
        | inl old ↦ rw (e, get_or_create, old) fresh
        | inr alive ↦ rw (e, get_or_create, alive) v
      ]
    ]

remove-Inv :
    (m : SessionManager) (id : NodeId)
    → Inv m
    → Inv (record m { sessions = HashMap.remove id m.sessions })
remove-Inv m id v = record {
  distinct = remove-Distinct id m.sessions v.distinct;
  owned = λ j t h. ground (arith, get-remove j id m.sessions, v.owned j t);
}

cleanup_expired-Inv : (m : SessionManager) (now : ℕ) → Inv m → Inv (cleanup_expired now m).0
unfolding cleanup_expired
cleanup_expired-Inv m now v = record {
  distinct = cleanup_expired-Distinct now m v.distinct;
  owned = λ j t h. ground (arith, cleanup_expired-exact now m j v.distinct, v.owned j t);
}

transition_ids :
    (now : ℕ) (t : SessionState) (s : Session)
    → ((transition now s t).0.remote_id ≡ s.remote_id)
      × ((transition now s t).0.local_id ≡ s.local_id)
unfolding transition
transition_ids now t s = ground arith

module _ (to_hex : NodeId → Bytes) where
  unfoldable pub step : SessionManager → Call → SessionManager
  step m (obtain checked made stored id) = (get_or_create to_hex checked made stored m id).0
  step m (change_state now id s) = (update_state now m id s).0
  step m (give_keys now id send recv) = (manager_set_keys now m id send recv).0
  step m (refresh now id) = (manager_touch now m id).0
  step m (drop_expired now) = (cleanup_expired now m).0
  step m (take_out id) = (remove m id).0
  step m (wipe id) = secure_remove m id

  -- If every session stands once, under its remote node's id, and is one of the local node, it is so
  -- after any call of the manager.
  pub step-Inv : (m : SessionManager) (c : Call) → Inv m → Inv (step m c)
  unfolding step remove secure_remove update_state manager_set_keys manager_touch set_keys touch
  step-Inv m (obtain checked made stored id) v = get_or_create-Inv to_hex checked made stored m id v
  step-Inv m (change_state now id s) v = with_session-Inv m id _ (transition_ids now s) v
  step-Inv m (give_keys now id send recv) v = with_session-Inv m id _ (λ _. (refl, refl)) v
  step-Inv m (refresh now id) v = with_session-Inv m id _ (λ _. (refl, refl)) v
  step-Inv m (drop_expired now) v = cleanup_expired-Inv m now v
  step-Inv m (take_out id) v = remove-Inv m id v
  step-Inv m (wipe id) v = remove-Inv m id v

  -- A session that has not expired is handed out again as it is, with the table unchanged; where the
  -- session of the table has expired, one in the first state and without keys is handed out, and a new
  -- one takes its place in the table.
  pub get_or_create_reuse :
      (m : SessionManager) (checked made stored : ℕ) (id : NodeId)
      → ((s : Session)
          → HashMap.get id m.sessions ≡ some s
          → is_expired checked s ≡ false
          → get_or_create to_hex checked made stored m id ≡ (m, s))
        × (has_expired checked id m.sessions ≡ true
            → ((get_or_create to_hex checked made stored m id).1.state ≡ init)
              × ((get_or_create to_hex checked made stored m id).1.keys ≡ none)
              × (HashMap.get id (get_or_create to_hex checked made stored m id).0.sessions
                  ≡ some (with_timeout to_hex stored m.local_id id m.default_timeout)))
  unfolding get_or_create create with_timeout
  get_or_create_reuse m checked made stored id = (
    λ s found alive. rw (found, get_or_create, alive),
    λ old. elim (Option-cases (HashMap.get id m.sessions)) [
      | inl e ↦ absurd (ground arith)
      | inr (s, e) ↦
          let late : is_expired checked s ≡ true = ground arith in
          rw (e, get_or_create, late)
            (
              refl,
              refl,
              ground (
                arith,
                get-insert id id (with_timeout to_hex stored m.local_id id m.default_timeout)
                    m.sessions,
              ),
            )
    ],
  )

  -- The one node that a call is about.
  abbrev pub target : Call → Option NodeId
  target (obtain checked made stored id) = some id
  target (change_state now id s) = some id
  target (give_keys now id send recv) = some id
  target (refresh now id) = some id
  target (drop_expired now) = none
  target (take_out id) = some id
  target (wipe id) = some id

  get_or_create_frame :
      (m : SessionManager) (checked made stored : ℕ) (id j : NodeId)
      → id ≢ j
      → HashMap.get j (get_or_create to_hex checked made stored m id).0.sessions
        ≡ HashMap.get j m.sessions
  unfolding get_or_create create
  get_or_create_frame m checked made stored id j other = ground (
    arith,
    get-insert j id (with_timeout to_hex stored m.local_id id m.default_timeout) m.sessions,
  )

  with_session_frame :
      (m : SessionManager) (id j : NodeId)
      (method : Session → Session × Result SessionError (Unit {0}))
      → id ≢ j
      → HashMap.get j (with_session m id method).0.sessions ≡ HashMap.get j m.sessions
  unfolding with_session
  with_session_frame m id j method other = elim (Option-cases (HashMap.get id m.sessions)) [
    | inl e ↦ rw (e, with_session)
    | inr (s, e) ↦
        rw (e, with_session) (ground (arith, get-update j id (λ _. (method s).0) m.sessions))
  ]

  remove_frame :
      (m : SessionManager) (id j : NodeId)
      → id ≢ j
      → HashMap.get j (HashMap.remove id m.sessions) ≡ HashMap.get j m.sessions
  remove_frame m id j other = ground (arith, get-remove j id m.sessions)

  -- A call on one node leaves the sessions with all other nodes as they were.
  pub step_frame :
      (m : SessionManager) (c : Call) (id j : NodeId)
      → target c ≡ some id
      → id ≢ j
      → HashMap.get j (step m c).sessions ≡ HashMap.get j m.sessions
  unfolding step update_state manager_set_keys manager_touch remove secure_remove
  step_frame m (obtain checked made stored i) id j e other =
      get_or_create_frame m checked made stored i j (ground arith)
  step_frame m (change_state now i s) id j e other = with_session_frame m i j _ (ground arith)
  step_frame m (give_keys now i send recv) id j e other = with_session_frame m i j _ (ground arith)
  step_frame m (refresh now i) id j e other = with_session_frame m i j _ (ground arith)
  step_frame m (drop_expired now) id j e other = absurd (ground arith)
  step_frame m (take_out i) id j e other = remove_frame m i j (ground arith)
  step_frame m (wipe i) id j e other = remove_frame m i j (ground arith)
