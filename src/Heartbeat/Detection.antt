-- ===== src/Heartbeat/Detection.antt =====
-- src/vpn/heartbeat.rs, the check in the loop of `start`, for a node that is silent.
use ll_vpn.Common.{
  ℕ, ◌+◌, ◌*◌, ◌^◌, ◌≤◌, ◌<◌, ◌≡◌, refl, true, false, List, [], ◌∷◌, ◌++◌, inl, inr, arith, ltb,
  if◌then◌else◌, length, length-map, All, Bool-cases, none, some, map,
}
use ll_vpn.Common.HashMap
use ll_vpn.Common.HashMap.{HashMap}
use ll_vpn.NodeId.{NodeId, node_id_eq}
use ll_vpn.Heartbeat.{NodeHeartbeatState}
use ll_vpn.Heartbeat.Manager.{Event, node_offline, check, sweep, Nodes}

module _ (interval threshold : ℕ) where
  -- The checks of one node in the rounds at a list of times, with no heartbeat in between.
  unfoldable pub checks : List ℕ → NodeHeartbeatState → NodeHeartbeatState × List Event
  checks [] s = (s, [])
  checks (now ∷ times) s =
      let (s', events) = check interval threshold now s in
      let (last, later) = checks times s' in (last, events ++ later)

  check_offline :
      (now : ℕ) (s : NodeHeartbeatState)
      → s.is_online ≡ false
      → check interval threshold now s ≡ (s, [])
  unfolding check
  check_offline now s off = ground arith

  checks_offline :
      (times : List ℕ) (s : NodeHeartbeatState) → s.is_online ≡ false → checks times s ≡ (s, [])
  unfolding checks
  checks_offline [] s off = refl
  checks_offline (now ∷ times) s off = rw (check_offline now s off, checks_offline times s off)

  abbrev Late : ℕ → ℕ → Type 0
  Late since now = since + interval * 2 < now

  -- An online node that missed fewer heartbeats than the threshold, and sends none for more than two
  -- intervals, stays online through the checks until their number makes up the threshold; then it is
  -- offline, and that is told exactly once.
  pub checks_detect :
      (times : List ℕ) (s : NodeHeartbeatState)
      → threshold < 2 ^ 32
      → s.is_online ≡ true
      → s.missed_count < threshold
      → All (Late s.last_heartbeat) times
      → ((checks times s).0.is_online ≡ ltb (s.missed_count + length times) threshold)
        × ((checks times s).1 ≡ (
            if ltb (s.missed_count + length times) threshold
            then []
            else node_offline s.node_id ∷ []))
  unfolding checks check
  checks_detect [] s small on few h = ground arith
  checks_detect (now ∷ times) s small on few h =
      let next : NodeHeartbeatState = record s { missed_count = s.missed_count + 1 } in
      elim (Bool-cases (ltb (s.missed_count + 1) threshold)) [
        | inl more ↦ ground (arith, checks_detect times next small on)
        | inr last ↦ ground (arith, checks_offline times (record next { is_online = false }) refl)
      ]

  -- A node whose heartbeat is at most two intervals old is left alone.
  pub check_recent :
      (now : ℕ) (s : NodeHeartbeatState)
      → now ≤ s.last_heartbeat + interval * 2
      → check interval threshold now s ≡ (s, [])
  unfolding check
  check_recent now s h = ground arith

  -- The check of all nodes does to each what the check of one does.
  get-sweep :
      (clock : NodeId → ℕ) (id : NodeId) (nodes : Nodes)
      → HashMap.get id (sweep interval threshold clock nodes).0 ≡ (elim (HashMap.get id nodes) [
        | none ↦ none
        | some s ↦ some (check interval threshold (clock id) s).0
      ])
  unfolding sweep HashMap.get
  get-sweep clock id [] = refl
  get-sweep clock id ((j, s) ∷ nodes) = ground (arith, get-sweep clock id nodes)

  -- The checks of all nodes in a number of rounds, each with its readings of the clock.
  unfoldable pub sweeps : List (NodeId → ℕ) → Nodes → Nodes
  sweeps [] nodes = nodes
  sweeps (clock ∷ clocks) nodes = sweeps clocks (sweep interval threshold clock nodes).0

  get-sweeps :
      (clocks : List (NodeId → ℕ)) (id : NodeId) (nodes : Nodes) (s : NodeHeartbeatState)
      → HashMap.get id nodes ≡ some s
      → HashMap.get id (sweeps clocks nodes) ≡ some (checks (map (λ clock. clock id) clocks) s).0
  unfolding sweeps checks
  get-sweeps [] id nodes s h = h
  get-sweeps (clock ∷ clocks) id nodes s h =
      get-sweeps clocks id (sweep interval threshold clock nodes).0
        (check interval threshold (clock id) s).0 (rw (get-sweep clock id nodes, h))

  -- An online node in the table that has missed fewer heartbeats than the threshold, a `u32`, and
  -- whose last one is more than two intervals old in each of a number of checks, is in the table after
  -- them, and is online exactly if what it had missed and the checks are together fewer than the
  -- threshold.
  pub sweeps_detect :
      (clocks : List (NodeId → ℕ)) (id : NodeId) (nodes : Nodes) (s : NodeHeartbeatState)
      → HashMap.get id nodes ≡ some s
      → threshold < 2 ^ 32
      → s.is_online ≡ true
      → s.missed_count < threshold
      → All (Late s.last_heartbeat) (map (λ clock. clock id) clocks)
      → (t : NodeHeartbeatState) × (HashMap.get id (sweeps clocks nodes) ≡ some t)
        × (t.is_online ≡ ltb (s.missed_count + length clocks) threshold)
  sweeps_detect clocks id nodes s found small on few h = (
    (checks (map (λ clock. clock id) clocks) s).0,
    get-sweeps clocks id nodes s found,
    rw (← length-map (λ (clock : NodeId → ℕ). clock id) clocks)
        (checks_detect (map (λ clock. clock id) clocks) s small on few h).0,
  )
