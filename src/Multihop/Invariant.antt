-- ===== src/Multihop/Invariant.antt =====
-- src/vpn/multihop.rs: what each call keeps of the table of routes.
use ll_vpn.Common.{
  ℕ, ◌+◌, ◌-◌, ◌≤◌, ◌≡◌, refl, inl, inr, ite_cases, if_cases, Bool, not, List, [], ◌∷◌, Option,
  none, some, length, ltb, Option-cases, Bool-cases, Result, Result-cases, err, Bytes, arith,
}
use ll_vpn.Common.HashMap
use ll_vpn.Common.HashMap.{
  HashMap, Distinct, retain, contains_key, keys, update-Distinct, length-update, length-insert,
  length-remove,
}
use ll_vpn.Common.Keyed.{IsKeyed, insert-IsKeyed, remove-IsKeyed, retain-IsKeyed, update-IsKeyed}
use ll_vpn.NodeId.{NodeId, NodeId-discrete, node_id_eq}
use ll_vpn.Session.{from_secs, elapsed}
use ll_vpn.Dht.Table.{DhtManager}
use ll_vpn.Router.{RouterError, invalid_data}
use ll_vpn.Multihop.{
  MultiHopEntry, Routes, MultihopManager, new, insert_or_evict, without_oldest, oldest, route_from,
  discover_over, discover_route, expiring_at, add_direct_route, remove_route, next_best, relayed,
  find_alternative, refresh_one, refresh_each, cleanup_expired, is_expired,
  default_route_timeout_secs, cleanup_interval_secs,
}
use ll_vpn.Multihop.Evict.{length-insert_or_evict}

abbrev pub target_of : MultiHopEntry → NodeId
target_of e = e.target

-- Every route stands once, under its target, and there are at most 1000, as the manager allows.
pub record Inv (m : MultihopManager) : Type 0 where
  pub keyed : IsKeyed target_of m.routes
  pub bounded : length m.routes ≤ 1000
  pub limit : m.max_entries ≡ 1000

-- Another table of the same manager.
with_routes :
    (m : MultihopManager) (r : Routes)
    → Inv m
    → IsKeyed target_of r
    → length r ≤ length m.routes
    → Inv (record m { routes = r })
with_routes m r v k h = record { keyed = k; bounded = omega (arith, v.bounded, h); limit = v.limit }

without_oldest-IsKeyed : (m : Routes) → IsKeyed target_of m → IsKeyed target_of (without_oldest m)
unfolding without_oldest
without_oldest-IsKeyed m k = elim (Option-cases (oldest m)) [
  | inl e ↦ rw (without_oldest, e) k
  | inr (o, e) ↦ rw (without_oldest, e) (remove-IsKeyed target_of o.0 m k)
]

inserted-IsKeyed :
    (e : MultiHopEntry) (m : MultihopManager)
    → Inv m
    → IsKeyed target_of (insert_or_evict e m).routes
unfolding insert_or_evict
inserted-IsKeyed e m v = elim (Bool-cases (contains_key e.target m.routes)) [
  | inl known ↦ rw (insert_or_evict, known) (insert-IsKeyed target_of e m.routes v.keyed)
  | inr new ↦ elim (Bool-cases (ltb (length m.routes) m.max_entries)) [
    | inl space ↦ rw (insert_or_evict, new, space) (insert-IsKeyed target_of e m.routes v.keyed)
    | inr full ↦
        rw (insert_or_evict, new, full)
          (insert-IsKeyed target_of e (without_oldest m.routes)
            (without_oldest-IsKeyed m.routes v.keyed))
  ]
]

insert_or_evict-max :
    (e : MultiHopEntry) (m : MultihopManager) → (insert_or_evict e m).max_entries ≡ m.max_entries
unfolding insert_or_evict
insert_or_evict-max e m = ground arith

pub insert_or_evict-Inv :
    (e : MultiHopEntry) (m : MultihopManager) → Inv m → Inv (insert_or_evict e m)
insert_or_evict-Inv e m v =
    let same = insert_or_evict-max e m in
    record {
      keyed = inserted-IsKeyed e m v;
      bounded = omega (
        arith,
        same,
        v.limit,
        length-insert_or_evict e m v.keyed.distinct (omega (arith, v.limit))
            (omega (arith, v.limit, v.bounded)),
      );
      limit = omega (arith, same, v.limit);
    }

route_from-Inv :
    (now : ℕ) (target : NodeId) (cs : List (NodeId × Bytes)) (m : MultihopManager)
    → Inv m
    → Inv (route_from now target cs m).0
unfolding route_from
route_from-Inv now target [] m v = v
route_from-Inv now target (c ∷ cs) m v = insert_or_evict-Inv _ m v

discover_over-Inv :
    (now : ℕ) (target : NodeId) (dht : Option DhtManager) (m : MultihopManager)
    → Inv m
    → Inv (discover_over now target dht m).0
unfolding discover_over
discover_over-Inv now target none m v = v
discover_over-Inv now target (some d) m v = route_from-Inv now target _ m v

pub discover_route-Inv :
    (now : ℕ) (target : NodeId) (m : MultihopManager) → Inv m → Inv (discover_route now target m).0
unfolding discover_route
discover_route-Inv now target m v =
    ite_cases (λ (r : MultihopManager × Result RouterError (Unit {0})). Inv r.0)
      (NodeId-discrete target m.local_id) (m, err invalid_data) (discover_over now target m.dht m)
      (λ own. v) (λ other. discover_over-Inv now target m.dht m v)

pub add_direct_route-Inv :
    (now : ℕ) (target : NodeId) (addr : Bytes) (m : MultihopManager)
    → Inv m
    → Inv (add_direct_route now target addr m)
unfolding add_direct_route
add_direct_route-Inv now target addr m v =
    ite_cases Inv (NodeId-discrete target m.local_id) m _ (λ own. v)
      (λ other. insert_or_evict-Inv _ m v)

pub expiring-Inv :
    (t : ℕ) (target : NodeId) (m : MultihopManager)
    → Inv m
    → Inv (record m { routes = HashMap.update target (expiring_at t) m.routes })
expiring-Inv t target m v =
    with_routes m _ v (update-IsKeyed target_of target (expiring_at t) (λ e. refl) m.routes v.keyed)
      (omega (arith, length-update target (expiring_at t) m.routes))

pub remove_route-Inv :
    (target : NodeId) (m : MultihopManager) → Inv m → Inv (remove_route target m).0
unfolding remove_route
remove_route-Inv target m v =
    with_routes m _ v (remove-IsKeyed target_of target m.routes v.keyed)
      (ground (arith, length-remove target m.routes v.keyed.distinct))

pub find_alternative-Inv :
    (now : ℕ) (target : NodeId) (m : MultihopManager)
    → Inv m
    → Inv (find_alternative now target m).0
unfolding find_alternative
find_alternative-Inv now target m v = elim (Option-cases (HashMap.get target m.routes)) [
  | inl missing ↦ rw (find_alternative, missing) v
  | inr (old, here) ↦ elim (Option-cases (next_best old.next_hop m.local_id old.candidates)) [
    | inl stuck ↦ rw (find_alternative, here, stuck) v
    | inr (best, found) ↦
        rw (find_alternative, here, found)
          (with_routes m (HashMap.insert target (relayed now target best old) m.routes) v
            (unfold relayed in
              insert-IsKeyed target_of (relayed now target best old) m.routes v.keyed)
            (ground (arith, length-insert target (relayed now target best old) m.routes, here)))
  ]
]

refresh_one-Inv :
    (now : ℕ) (target : NodeId) (m : MultihopManager) → Inv m → Inv (refresh_one now target m).0
unfolding refresh_one
refresh_one-Inv now target m v =
    let found = discover_route-Inv now target m v in
    elim (Result-cases (discover_route now target m).1) [
      | inl (e, failed) ↦
          rw (refresh_one, failed)
            (expiring-Inv (now + from_secs default_route_timeout_secs) target
              (discover_route now target m).0 found)
      | inr (u, done) ↦ rw (refresh_one, done) found
    ]

pub refresh_each-Inv :
    (now : ℕ) (ts : List NodeId) (m : MultihopManager) → Inv m → Inv (refresh_each now ts m).0
unfolding refresh_each
refresh_each-Inv now [] m v = v
refresh_each-Inv now (t ∷ ts) m v =
    refresh_each-Inv now ts (refresh_one now t m).0 (refresh_one-Inv now t m v)

length-retain-le : (p : NodeId → MultiHopEntry → Bool) (m : Routes) → length (retain p m) ≤ length m
unfolding retain
length-retain-le p [] = omega arith
length-retain-le p ((k, e) ∷ m) = ground (arith, length-retain-le p m)

pub cleanup_expired-Inv : (now : ℕ) (m : MultihopManager) → Inv m → Inv (cleanup_expired now m).0
unfolding cleanup_expired
cleanup_expired-Inv now m v =
    let p : NodeId → MultiHopEntry → Bool = λ _ e. not (is_expired now e) in
    if_cases (λ (r : MultihopManager × ℕ). Inv r.0)
      (ltb (elapsed now m.last_cleanup) (from_secs cleanup_interval_secs)) (m, 0)
      (
        record m { routes = retain p m.routes; last_cleanup = now },
        length m.routes - length (retain p m.routes),
      )
      (λ early. v)
      (λ due. record {
        keyed = retain-IsKeyed target_of p m.routes v.keyed;
        bounded = omega (arith, v.bounded, length-retain-le p m.routes);
        limit = v.limit;
      })
