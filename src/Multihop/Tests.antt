-- ===== src/Multihop/Tests.antt =====
-- src/vpn/multihop.rs: a manager with two routes, and one bound to a table of the DHT.
use ll_vpn.Common.{
  ◌+◌, ◌*◌, ◌≤◌, length, ◌⊎◌, All, ℕ, ◌≡◌, ◌≢◌, refl, ite, false, List, [], ◌∷◌, none, some, ok,
  err, arith, ℕ_discrete,
}
use ll_vpn.Common.HashMap
use ll_vpn.Common.HashMap.{Distinct}
use ll_vpn.Common.Sorting.{Any}
use ll_vpn.NodeId.{NodeId, NodeId-discrete, node_id_eq, filled}
use ll_vpn.Dht.Table.{DhtManager, find_node, find_nearest, sort_by_distance, all_entries}
use ll_vpn.Router.{no_route, relay}
use ll_vpn.Multihop.{
  MultiHopEntry, MultihopManager, new, new_entry, insert_or_evict, discover_route, find_route,
  find_alternative, is_direct, remove_route,
}
use ll_vpn.Multihop.Evict.{IsOldest, insert_or_evict-IsOldest}
use ll_vpn.Multihop.Run.{
  Call, discover, add_direct, invalidate, refresh_stale, run, LeadsTo, run-find_route,
}
use ll_vpn.Multihop.Discover.{IsRoute, discover_route-find_route}
use ll_vpn.Multihop.Alternative.{Usable, find_alternative-find_route}

abbrev route : ℕ → ℕ → MultiHopEntry
route now n = new_entry now (filled n) (filled 9) 2 relay ((filled 9, []) ∷ (filled 8, []) ∷ [])

abbrev manager : MultihopManager
manager = record {
  local_id = filled 0;
  routes = (filled 1, route 20 1) ∷ (filled 2, route 10 2) ∷ [];
  dht = none;
  max_entries = 2;
  last_cleanup = 0;
}

manager-Distinct : Distinct manager.routes
unfolding HashMap.get NodeId-discrete ℕ_discrete
manager-Distinct = (refl, (refl, tt))

absent_test : HashMap.get (filled 3) manager.routes ≡ none
unfolding HashMap.get NodeId-discrete ℕ_discrete
absent_test = refl

insert_or_evict-IsOldest_example :
    (k : NodeId) × (t : ℕ) × IsOldest manager.routes k t
    × ((j : NodeId)
        → HashMap.get j (insert_or_evict (route 30 3) manager).routes
          ≡ ite
              (NodeId-discrete (filled 3) j)
              (some (route 30 3))
              (ite (NodeId-discrete k j) none (HashMap.get j manager.routes)))
insert_or_evict-IsOldest_example =
    unfold new_entry in
    insert_or_evict-IsOldest (route 30 3) manager manager-Distinct (omega arith) absent_test
      (omega arith)

abbrev calls : List (ℕ × Call)
calls =
    (1, add_direct (filled 1) [])
    ∷ (2, discover (filled 2))
    ∷ (3, invalidate (filled 1))
    ∷ (4, refresh_stale)
    ∷ []

run-find_route_example :
    (length (run calls (new 0 (filled 0))).routes ≤ 1000)
    × Distinct (run calls (new 0 (filled 0))).routes
    × LeadsTo (filled 1) (find_route 5 (filled 1) (run calls (new 0 (filled 0))))
    × LeadsTo (filled 1) (remove_route (filled 1) (run calls (new 0 (filled 0)))).1
    × (find_route 5 (filled 1) (remove_route (filled 1) (run calls (new 0 (filled 0)))).0 ≡ none)
run-find_route_example = run-find_route 0 5 (filled 0) (filled 1) calls

present_test : HashMap.get (filled 1) manager.routes ≡ some (route 20 1)
unfolding HashMap.get NodeId-discrete ℕ_discrete
present_test = refl

find_alternative-find_route_example :
    (((find_alternative 40 (filled 1) manager).1 ≡ ok tt)
      × (e : MultiHopEntry) × (find_route 40 (filled 1) (find_alternative 40 (filled 1) manager).0
          ≡ some e)
      × Any
          (λ c. (c.0 ≡ e.next_hop) × Usable (route 20 1).next_hop (filled 0) c)
          (route 20 1).candidates
      × (e.connection_type ≡ relay)
      × (e.hop_count ≡ (route 20 1).hop_count)
      × (e.metric ≡ (route 20 1).hop_count * 100 + 50)
      × (is_direct e ≡ is_direct (route 20 1)))
    ⊎ (All (λ c. ¬ Usable (route 20 1).next_hop (filled 0) c) (route 20 1).candidates
        × (find_alternative 40 (filled 1) manager ≡ (manager, err (no_route (filled 1)))))
find_alternative-find_route_example =
    find_alternative-find_route 40 (filled 1) manager (route 20 1) present_test

abbrev known : DhtManager
known = record {
  local_id = filled 0;
  buckets =
      record {
        entries = record { node_id = filled 3; addr = []; last_seen = 0 } ∷ [];
        capacity = 20;
      }
      ∷ [];
  values = [];
  local_addr = [];
  running = false;
}

abbrev bound : MultihopManager
bound = record manager { dht = some known }

other_test : filled 3 ≢ filled 0
other_test e = ground (arith, e)

named_test : find_node known (filled 3) ≢ []
unfolding find_node find_nearest sort_by_distance all_entries
named_test e = ground (arith, e)

discover_route-find_route_example :
    (e : MultiHopEntry) × ((discover_route 40 (filled 3) bound).1 ≡ ok tt)
    × (find_route 40 (filled 3) (discover_route 40 (filled 3) bound).0 ≡ some e)
    × IsRoute 40 (filled 3) (find_node known (filled 3)) e
discover_route-find_route_example =
    discover_route-find_route 40 (filled 3) bound known other_test refl named_test
