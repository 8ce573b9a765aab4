-- ===== src/Multihop/Run.antt =====
-- src/vpn/multihop.rs: any calls of the manager, one after the other.
use ll_vpn.Common.{
  ℕ, ◌-◌, ◌≤◌, ◌≡◌, refl, inl, inr, Option, none, some, Option-cases, if_cases, length, List, [],
  ◌∷◌, Bytes, arith,
}
use ll_vpn.Common.HashMap
use ll_vpn.Common.HashMap.{retain, keys, Distinct, get-remove}
use ll_vpn.Common.Keyed.{get-key}
use ll_vpn.NodeId.{NodeId, node_id_eq}
use ll_vpn.Session.{from_secs}
use ll_vpn.Dht.Table.{DhtManager}
use ll_vpn.Multihop.{
  MultiHopEntry, MultihopManager, new, set_dht, discover_route, find_route, add_direct_route,
  remove_route, mark_invalid, find_alternative, refresh_stale_routes, insert_route, cleanup_expired,
  is_expired,
}
use ll_vpn.Multihop.Invariant.{
  Inv, target_of, insert_or_evict-Inv, discover_route-Inv, add_direct_route-Inv, expiring-Inv,
  remove_route-Inv, find_alternative-Inv, refresh_each-Inv, cleanup_expired-Inv,
}

-- A call that changes the manager.
pub data Call : Type 0 where
  bind_dht : DhtManager → Call
  discover : NodeId → Call
  add_direct : NodeId → Bytes → Call
  insert : MultiHopEntry → Call
  remove : NodeId → Call
  invalidate : NodeId → Call
  alternative : NodeId → Call
  refresh_stale : Call
  cleanup : Call

unfoldable pub step : ℕ → Call → MultihopManager → MultihopManager
step now (bind_dht d) m = set_dht d m
step now (discover t) m = (discover_route now t m).0
step now (add_direct t addr) m = add_direct_route now t addr m
step now (insert e) m = insert_route e m
step now (remove t) m = (remove_route t m).0
step now (invalidate t) m = mark_invalid now t m
step now (alternative t) m = (find_alternative now t m).0
step now refresh_stale m = (refresh_stale_routes now m).0
step now cleanup m = (cleanup_expired now m).0

unfoldable pub run : List (ℕ × Call) → MultihopManager → MultihopManager
unfolding step
run [] m = m
run ((now, c) ∷ cs) m = run cs (step now c m)

step-Inv : (now : ℕ) (c : Call) (m : MultihopManager) → Inv m → Inv (step now c m)
unfolding step set_dht insert_route mark_invalid refresh_stale_routes
step-Inv now (bind_dht d) m v = record { keyed = v.keyed; bounded = v.bounded; limit = v.limit }
step-Inv now (discover t) m v = discover_route-Inv now t m v
step-Inv now (add_direct t addr) m v = add_direct_route-Inv now t addr m v
step-Inv now (insert e) m v = insert_or_evict-Inv e m v
step-Inv now (remove t) m v = remove_route-Inv t m v
step-Inv now (invalidate t) m v = expiring-Inv (now - from_secs 1) t m v
step-Inv now (alternative t) m v = find_alternative-Inv now t m v
step-Inv now refresh_stale m v =
    refresh_each-Inv now (keys (retain (λ _ e. is_expired now e) m.routes)) m v
step-Inv now cleanup m v = cleanup_expired-Inv now m v

run_from-Inv : (cs : List (ℕ × Call)) (m : MultihopManager) → Inv m → Inv (run cs m)
unfolding run
run_from-Inv [] m v = v
run_from-Inv ((now, c) ∷ cs) m v = run_from-Inv cs (step now c m) (step-Inv now c m v)

run-Inv : (start : ℕ) (local : NodeId) (cs : List (ℕ × Call)) → Inv (run cs (new start local))
run-Inv start local cs = run_from-Inv cs (new start local) (
    unfold new in
    record { keyed = record { distinct = tt; named = tt }; bounded = omega arith; limit = refl })

-- What is found, if it is, is a route to the target.
abbrev pub LeadsTo : NodeId → Option MultiHopEntry → Type 0
LeadsTo target none = Unit {0}
LeadsTo target (some e) = e.target ≡ target

get-LeadsTo :
    (target : NodeId) (m : MultihopManager) → Inv m → LeadsTo target (HashMap.get target m.routes)
get-LeadsTo target m v = go (HashMap.get target m.routes) refl
  where
    go : (o : Option MultiHopEntry) → HashMap.get target m.routes ≡ o → LeadsTo target o
    go none e = tt
    go (some found) e = get-key target_of target found m.routes v.keyed e

find_route-LeadsTo :
    (now : ℕ) (target : NodeId) (m : MultihopManager)
    → Inv m
    → LeadsTo target (find_route now target m)
unfolding find_route
find_route-LeadsTo now target m v = elim (Option-cases (HashMap.get target m.routes)) [
  | inl e ↦ rw (find_route, e) tt
  | inr (found, e) ↦
      rw (find_route, e)
        (if_cases (LeadsTo target) (is_expired now found) none (some found) (λ old. tt)
          (λ valid. get-key target_of target found m.routes v.keyed e))
]

removed-find_route :
    (now : ℕ) (target : NodeId) (m : MultihopManager)
    → find_route now target (remove_route target m).0 ≡ none
unfolding find_route remove_route
removed-find_route now target m = ground (arith, get-remove target target m.routes)

-- After any calls, at any times, on a new manager: there are at most 1000 routes, no target has two, and
-- what `find_route` or `remove_route` find for a target is a route to it. `find_route` finds none any more
-- after `remove_route`.
pub run-find_route :
    (start now : ℕ) (local target : NodeId) (cs : List (ℕ × Call))
    → (length (run cs (new start local)).routes ≤ 1000)
      × Distinct (run cs (new start local)).routes
      × LeadsTo target (find_route now target (run cs (new start local)))
      × LeadsTo target (remove_route target (run cs (new start local))).1
      × (find_route now target (remove_route target (run cs (new start local))).0 ≡ none)
run-find_route start now local target cs =
    let m = run cs (new start local) in
    let v = run-Inv start local cs in
    (
      v.bounded,
      v.keyed.distinct,
      find_route-LeadsTo now target m v,
      unfold remove_route in get-LeadsTo target m v,
      removed-find_route now target m,
    )
