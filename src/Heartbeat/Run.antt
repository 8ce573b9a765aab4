-- ===== src/Heartbeat/Run.antt =====
-- src/vpn/heartbeat.rs: runs of the threads that share the table, one lock at a time.
use mathlib.Core.List.{append_assoc, append-nil}
use ll_vpn.Common.{
  ℕ, ◌≡◌, ◌≢◌, refl, ap, sym, List, [], ◌∷◌, ◌++◌, some, inl, inr, arith, All, Option-cases, Result,
}
use ll_vpn.Common.HashMap
use ll_vpn.Common.HashMap.{
  HashMap, Distinct, get-insert, get-remove, get-update, insert-Distinct, remove-Distinct,
  update-Distinct,
}
use ll_vpn.NodeId.{NodeId, node_id_eq}
use ll_vpn.Heartbeat.{NodeHeartbeatState, HeartbeatMessage, HeartbeatError, new_state}
use ll_vpn.Heartbeat.Manager.{
  Event, Nodes, add_node, remove_node, send_one, sweep, handle_heartbeat, send_all, round,
  HeartbeatManager,
}
use ll_vpn.Heartbeat.Manager.{known_or_new, heard}
use ll_vpn.Heartbeat.Alternation.{
  came-append, went-append, Keyed, Balanced, sweep-Keyed, sweep-Balanced,
}

-- `All` through the operations of the table.
insert-Keyed :
    (id : NodeId) (s : NodeHeartbeatState) (nodes : Nodes)
    → s.node_id ≡ id
    → All (λ e. e.1.node_id ≡ e.0) nodes
    → All (λ e. e.1.node_id ≡ e.0) (HashMap.insert id s nodes)
unfolding HashMap.insert
insert-Keyed id s [] same h = (same, tt)
insert-Keyed id s ((j, t) ∷ nodes) same h = ground (arith, insert-Keyed id s nodes same h.1, h.0)

remove-Keyed :
    (id : NodeId) (nodes : Nodes)
    → All (λ e. e.1.node_id ≡ e.0) nodes
    → All (λ e. e.1.node_id ≡ e.0) (HashMap.remove id nodes)
unfolding HashMap.remove
remove-Keyed id [] h = tt
remove-Keyed id ((j, t) ∷ nodes) h = ground (arith, remove-Keyed id nodes h.1, h.0)

update-Keyed :
    (id : NodeId) (sequence : ℕ) (nodes : Nodes)
    → All (λ e. e.1.node_id ≡ e.0) nodes
    → All
        (λ e. e.1.node_id ≡ e.0)
        (HashMap.update id (λ s. record s { send_sequence = sequence }) nodes)
unfolding HashMap.update
update-Keyed id sequence [] h = tt
update-Keyed id sequence ((j, t) ∷ nodes) h =
    ground (arith, update-Keyed id sequence nodes h.1, h.0)

get-id :
    (id : NodeId) (s : NodeHeartbeatState) (nodes : Nodes)
    → All (λ e. e.1.node_id ≡ e.0) nodes
    → HashMap.get id nodes ≡ some s
    → s.node_id ≡ id
unfolding HashMap.get
get-id id s [] h e = absurd (ground arith)
get-id id s ((j, t) ∷ nodes) h e = ground (arith, get-id id s nodes h.1, h.0)

known_or_new-id :
    (now : ℕ) (id : NodeId) (nodes : Nodes)
    → All (λ e. e.1.node_id ≡ e.0) nodes
    → (known_or_new now id (HashMap.get id nodes)).node_id ≡ id
unfolding new_state
known_or_new-id now id nodes h = elim (Option-cases (HashMap.get id nodes)) [
  | inl e ↦ rw e
  | inr (s, e) ↦ rw e (get-id id s nodes h e)
]

handle_heartbeat-Balanced :
    (nodes : Nodes) (now : ℕ) (msg : HeartbeatMessage) (id : NodeId)
    → Balanced id nodes (handle_heartbeat now nodes msg)
unfolding handle_heartbeat new_state
handle_heartbeat-Balanced nodes now msg id = elim (Option-cases (HashMap.get msg.sender_id nodes)) [
  | inl e ↦ rw e (
      ground (
        arith,
        get-insert id msg.sender_id (heard now msg.sequence (new_state now msg.sender_id)) nodes,
      ))
  | inr (s, e) ↦ rw e (ground (arith, get-insert id msg.sender_id (heard now msg.sequence s) nodes))
]

-- What happens to the table, one lock at a time: the thread of `start` sends to a node or checks all
-- nodes, a heartbeat comes in, or the program adds or removes a node.
pub data Step : Type 0 where
  send_to : ℕ → ℕ → NodeId → Step
  check_all : (NodeId → ℕ) → Step
  arrive : ℕ → HeartbeatMessage → Step
  add remove : ℕ → NodeId → Step

module _ (send_fn : NodeId → HeartbeatMessage → Result HeartbeatError (Unit {0})) (local : NodeId)
    (interval threshold : ℕ) where
  unfoldable pub step : Nodes → Step → Nodes × List Event
  step nodes (send_to now_secs sequence id) = send_one send_fn local now_secs sequence nodes id
  step nodes (check_all clock) = sweep interval threshold clock nodes
  step nodes (arrive now msg) = handle_heartbeat now nodes msg
  step nodes (add now id) = (add_node now nodes id, [])
  step nodes (remove now id) = (remove_node nodes id, [])

  -- A run of any steps in any order, with all events.
  unfoldable pub run : Nodes → List Step → Nodes × List Event
  run nodes [] = (nodes, [])
  run nodes (a ∷ steps) =
      let (nodes', events) = step nodes a in
      let (last, later) = run nodes' steps in (last, events ++ later)

  pub step-Keyed : (nodes : Nodes) (a : Step) → Keyed nodes → Keyed (step nodes a).0
  unfolding step send_one handle_heartbeat add_node remove_node new_state
  step-Keyed nodes (send_to now_secs sequence id) v = ground (
    arith,
    v,
    update-Distinct id (λ s. record s { send_sequence = sequence }) nodes v.0,
    update-Keyed id sequence nodes v.1,
  )
  step-Keyed nodes (check_all clock) v = sweep-Keyed interval threshold clock nodes v
  step-Keyed nodes (arrive now msg) v = (
    insert-Distinct msg.sender_id _ nodes v.0,
    insert-Keyed msg.sender_id _ nodes (known_or_new-id now msg.sender_id nodes v.1) v.1,
  )
  step-Keyed nodes (add now id) v = ground (
    arith,
    v,
    insert-Distinct id (new_state now id) nodes v.0,
    insert-Keyed id (new_state now id) nodes refl v.1,
  )
  step-Keyed nodes (remove now id) v = (remove-Distinct id nodes v.0, remove-Keyed id nodes v.1)

  abbrev pub Untouched : NodeId → Step → Type 0
  Untouched id (remove now j) = j ≢ id
  Untouched id (send_to now_secs sequence j) = Unit {0}
  Untouched id (check_all clock) = Unit {0}
  Untouched id (arrive now msg) = Unit {0}
  Untouched id (add now j) = Unit {0}

  step-Balanced :
      (nodes : Nodes) (a : Step) (id : NodeId)
      → Keyed nodes
      → Untouched id a
      → Balanced id nodes (step nodes a)
  unfolding step send_one handle_heartbeat add_node remove_node new_state
  step-Balanced nodes (send_to now_secs sequence j) id v h =
      ground (arith, get-update id j (λ s. record s { send_sequence = sequence }) nodes)
  step-Balanced nodes (check_all clock) id v h = sweep-Balanced interval threshold clock id nodes v
  step-Balanced nodes (arrive now msg) id v h = handle_heartbeat-Balanced nodes now msg id
  step-Balanced nodes (add now j) id v h = ground (arith, get-insert id j (new_state now j) nodes)
  step-Balanced nodes (remove now j) id v h = ground (arith, get-remove id j nodes)

  -- From a table in which every node stands once, under its own id, and by any steps that do not
  -- remove the node itself: the table stays so, and the times that the node was said to come, with 1
  -- if it is offline at the end, are as many as the times that it was said to go, with 1 if it was
  -- offline at the start.
  pub run-Balanced :
      (nodes : Nodes) (steps : List Step) (id : NodeId)
      → Keyed nodes
      → All (Untouched id) steps
      → Keyed (run nodes steps).0 × Balanced id nodes (run nodes steps)
  unfolding run
  run-Balanced nodes [] id v h = (v, refl)
  run-Balanced nodes (a ∷ steps) id v h =
      let next = (step nodes a).0 in
      let one = step-Balanced nodes a id v h.0 in
      let rest = run-Balanced next steps id (step-Keyed nodes a v) h.1 in
      (
        rest.0,
        omega (
          arith,
          one,
          rest.1,
          came-append id (step nodes a).1 (run next steps).1,
          went-append id (step nodes a).1 (run next steps).1,
        ),
      )

  -- The sends of one round.
  abbrev pub send_steps : (NodeId → ℕ) → ℕ → List NodeId → List Step
  send_steps secs sequence [] = []
  send_steps secs sequence (id ∷ ids) = send_to (secs id) sequence id ∷ send_steps secs sequence ids

  run-send_steps :
      (secs : NodeId → ℕ) (sequence : ℕ) (ids : List NodeId) (nodes : Nodes) (rest : List Step)
      → run nodes (send_steps secs sequence ids ++ rest) ≡ (
        (run (send_all send_fn local secs sequence ids nodes).0 rest).0,
        (send_all send_fn local secs sequence ids nodes).1
            ++ (run (send_all send_fn local secs sequence ids nodes).0 rest).1,
      )
  unfolding run step send_all
  run-send_steps secs sequence [] nodes rest = refl
  run-send_steps secs sequence (id ∷ ids) nodes rest =
      let one = step nodes (send_to (secs id) sequence id) in
      let all = send_all send_fn local secs sequence ids one.0 in
      rw (run-send_steps secs sequence ids one.0 rest) (
        ap (λ (l : List Event). ((run all.0 rest).0, l))
          (sym (append_assoc one.1 all.1 (run all.0 rest).1)))

  -- One round of the thread of `start`, for a manager with this id, interval and threshold, is the run
  -- of its sends, one for each node in the table, and of one check of all nodes.
  pub round-run :
      (secs clock : NodeId → ℕ) (m : HeartbeatManager) (sequence : ℕ)
      → m.local_id ≡ local
      → m.interval ≡ interval
      → m.offline_threshold ≡ threshold
      → ((round send_fn secs clock m sequence).0.nodes, (round send_fn secs clock m sequence).2)
        ≡ run m.nodes (send_steps secs sequence (HashMap.keys m.nodes) ++ (check_all clock ∷ []))
  unfolding round run step
  round-run secs clock m sequence own every limit =
      let sent = send_all send_fn local secs sequence (HashMap.keys m.nodes) m.nodes in
      rw
        (
          run-send_steps secs sequence (HashMap.keys m.nodes) m.nodes (check_all clock ∷ []),
          own,
          every,
          limit,
        )
        (ap (λ (l : List Event). ((sweep interval threshold clock sent.0).0, sent.1 ++ l))
          (sym (append-nil (sweep interval threshold clock sent.0).1)))
