-- ===== src/Session/Tests.antt =====
-- src/vpn/session.rs: runs of sessions and of their table on small inputs.
use ll_vpn.Common.{◌≡◌, refl, ◌⊎◌, err, [], ◌∷◌, none, ok, arith, Bytes}
use ll_vpn.Common.HashMap
use ll_vpn.Common.HashMap.{Distinct}
use ll_vpn.NodeId.{NodeId, node_id_eq, filled}
use ll_vpn.Session.{
  Session, init, handshake, invalid_state, cannot_transition, transition, touch,
  verify_recv_counter,
}
use ll_vpn.Session.Machine.{◌⟶◌, transition_iff}
use ll_vpn.Session.Counters.{accepted, Ascending, accepted-Ascending}
use ll_vpn.Session.Manager.{SessionManager}
use ll_vpn.Session.Manager.Reuse.{obtain, Inv, step, step-Inv}

-- The ids of the tests stand in for their hexadecimal texts.
abbrev hex : NodeId → Bytes
hex id = id.bytes

abbrev session : Session
session = record {
  id = [];
  local_id = filled 1;
  remote_id = filled 2;
  state = init;
  keys = none;
  created_at = 0;
  last_active = 5;
  timeout = 100;
  send_counter = 7;
  recv_counter = 3;
}

abbrev manager : SessionManager
manager = record { sessions = (filled 2, session) ∷ []; local_id = filled 1; default_timeout = 100 }

manager-Inv : Inv manager
unfolding HashMap.get
manager-Inv = record { distinct = (refl, tt); owned = λ id s h. ground arith }

transition_iff_example :
    ((session.state ⟶ handshake)
      × (transition 9 session handshake
          ≡ (record session { state = handshake; last_active = 9 }, ok tt)))
    ⊎ ((¬ (session.state ⟶ handshake))
        × (transition 9 session handshake
            ≡ (session, err (invalid_state (cannot_transition init handshake)))))
transition_iff_example = transition_iff 9 session handshake

accepted_test : accepted session ((1, 4) ∷ (2, 3) ∷ (3, 9) ∷ (4, 4) ∷ []) ≡ 4 ∷ 9 ∷ []
unfolding accepted verify_recv_counter touch
accepted_test = refl

accepted-Ascending_example : Ascending 3 (accepted session ((1, 4) ∷ (2, 3) ∷ (3, 9) ∷ (4, 4) ∷ []))
accepted-Ascending_example =
    accepted-Ascending session ((1, 4) ∷ (2, 3) ∷ (3, 9) ∷ (4, 4) ∷ [])
      (omega arith, (omega arith, (omega arith, (omega arith, tt))))

step-Inv_example : Inv (step hex manager (obtain 200 200 201 (filled 2)))
step-Inv_example = step-Inv hex manager (obtain 200 200 201 (filled 2)) manager-Inv
