-- ===== src/Heartbeat/Alternation.antt =====
-- src/vpn/heartbeat.rs, the callbacks: counts of the events of one node, and the check of all
-- nodes.
use ll_vpn.Common.{
  ℕ, suc, ◌+◌, ◌≡◌, refl, ◌∙◌, List, [], ◌∷◌, ◌++◌, Option, none, some, arith, ite, key_eq,
  if◌then◌else◌, All,
}
use ll_vpn.Common.HashMap
use ll_vpn.Common.HashMap.{
  HashMap, Distinct, get-insert, get-remove, get-update, insert-Distinct, remove-Distinct,
  update-Distinct,
}
use ll_vpn.NodeId.{NodeId, node_id_eq}
use ll_vpn.Heartbeat.{NodeHeartbeatState}
use ll_vpn.Heartbeat.Manager.{
  Event, node_online, node_offline, heartbeat_sent, heartbeat_received, send_called, Nodes, check,
  sweep,
}

-- How often a list of events tells of a node that it came, or that it went.
abbrev pub came : NodeId → List Event → ℕ
came id [] = 0
came id (node_online j ∷ es) = ite (key_eq j id) (suc (came id es)) (came id es)
came id (node_offline j ∷ es) = came id es
came id (heartbeat_sent j n ∷ es) = came id es
came id (heartbeat_received j n ∷ es) = came id es
came id (send_called j m ∷ es) = came id es

abbrev pub went : NodeId → List Event → ℕ
went id [] = 0
went id (node_offline j ∷ es) = ite (key_eq j id) (suc (went id es)) (went id es)
went id (node_online j ∷ es) = went id es
went id (heartbeat_sent j n ∷ es) = went id es
went id (heartbeat_received j n ∷ es) = went id es
went id (send_called j m ∷ es) = went id es

pub came-append : (id : NodeId) (es fs : List Event) → came id (es ++ fs) ≡ came id es + came id fs
came-append id [] fs = omega arith
came-append id (node_online j ∷ es) fs = ground (arith, came-append id es fs)
came-append id (node_offline j ∷ es) fs = came-append id es fs
came-append id (heartbeat_sent j n ∷ es) fs = came-append id es fs
came-append id (heartbeat_received j n ∷ es) fs = came-append id es fs
came-append id (send_called j m ∷ es) fs = came-append id es fs

pub went-append : (id : NodeId) (es fs : List Event) → went id (es ++ fs) ≡ went id es + went id fs
went-append id [] fs = omega arith
went-append id (node_offline j ∷ es) fs = ground (arith, went-append id es fs)
went-append id (node_online j ∷ es) fs = went-append id es fs
went-append id (heartbeat_sent j n ∷ es) fs = went-append id es fs
went-append id (heartbeat_received j n ∷ es) fs = went-append id es fs
went-append id (send_called j m ∷ es) fs = went-append id es fs

-- 1 where the table has a node as offline, and 0 elsewhere.
abbrev pub known_offline : Option NodeHeartbeatState → ℕ
known_offline none = 0
known_offline (some s) = if s.is_online then 0 else 1

-- No node stands twice, and each state is under its own id.
abbrev pub Keyed : Nodes → Type 0
Keyed nodes = Distinct nodes × All (λ e. e.1.node_id ≡ e.0) nodes

-- What a step keeps: the two counts and the state balance.
abbrev pub Balanced : NodeId → Nodes → Nodes × List Event → Type 0
Balanced id nodes r =
    came id r.1 + known_offline (HashMap.get id r.0)
    ≡ went id r.1 + known_offline (HashMap.get id nodes)

module _ (interval threshold : ℕ) where
  check-id :
      (now : ℕ) (s : NodeHeartbeatState) → (check interval threshold now s).0.node_id ≡ s.node_id
  unfolding check
  check-id now s = ground arith

  -- The check of one node tells of that node alone, and says what it does.
  check-events :
      (now : ℕ) (s : NodeHeartbeatState) (id : NodeId)
      → (came id (check interval threshold now s).1 ≡ 0)
        × (went id (check interval threshold now s).1 + known_offline (some s)
            ≡ ite
                (key_eq s.node_id id)
                (known_offline (some (check interval threshold now s).0))
                (known_offline (some s)))
  unfolding check
  check-events now s id = ground arith

  sweep_absent :
      (clock : NodeId → ℕ) (id : NodeId) (nodes : Nodes)
      → HashMap.get id nodes ≡ none
      → HashMap.get id (sweep interval threshold clock nodes).0 ≡ none
  unfolding sweep HashMap.get
  sweep_absent clock id [] h = refl
  sweep_absent clock id ((j, s) ∷ nodes) h = ground (arith, sweep_absent clock id nodes)

  pub sweep-Keyed :
      (clock : NodeId → ℕ) (nodes : Nodes)
      → Keyed nodes
      → Keyed (sweep interval threshold clock nodes).0
  unfolding sweep
  sweep-Keyed clock [] v = v
  sweep-Keyed clock ((j, s) ∷ nodes) v =
      let rest = sweep-Keyed clock nodes (v.0.1, v.1.1) in
      ((sweep_absent clock j nodes v.0.0, rest.0), (check-id (clock j) s ∙ v.1.0, rest.1))

  pub sweep-Balanced :
      (clock : NodeId → ℕ) (id : NodeId) (nodes : Nodes)
      → Keyed nodes
      → Balanced id nodes (sweep interval threshold clock nodes)
  unfolding sweep HashMap.get
  sweep-Balanced clock id [] v = refl
  sweep-Balanced clock id ((j, s) ∷ nodes) v =
      let (s', events) = check interval threshold (clock j) s in
      let later = (sweep interval threshold clock nodes).1 in
      ground (
        arith,
        sweep-Balanced clock id nodes (v.0.1, v.1.1),
        v.0.0,
        v.1.0,
        check-events (clock j) s id,
        check-id (clock j) s,
        came-append id events later,
        went-append id events later,
        sweep_absent clock id nodes,
      )
