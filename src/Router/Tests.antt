-- ===== src/Router/Tests.antt =====
-- src/router.rs: a table in which a target is entered twice.
use ll_vpn.Common.{◌≡◌, List, [], ◌∷◌, ℕ}
use ll_vpn.NodeId.{filled}
use ll_vpn.Router.{RouteEntry, vpn, new, best_route, lookup}
use ll_vpn.Router.Best.{Change, add_entry, remove_target, change_all, best_route-lookup}

abbrev route : ℕ → ℕ → RouteEntry
route target metric = record {
  target = filled target;
  next_hop = filled 9;
  connection_type = vpn;
  metric = metric;
  last_active = 0;
}

abbrev changes : List Change
changes =
    add_entry (route 1 10)
    ∷ add_entry (route 2 5)
    ∷ add_entry (route 1 40)
    ∷ remove_target (filled 2)
    ∷ []

best_route-lookup_example :
    best_route (filled 1) (change_all changes new) ≡ lookup (filled 1) (change_all changes new)
best_route-lookup_example = best_route-lookup (filled 1) changes
