-- ===== src/Router/Best.antt =====
-- src/router.rs, `best_route` and `lookup`.
use ll_vpn.Common.{◌≡◌, refl, List, [], ◌∷◌, none, keep, arith}
use ll_vpn.Common.HashMap
use ll_vpn.Common.HashMap.{HashMap, values, Distinct}
use ll_vpn.Common.Keyed.{Named, IsKeyed, insert-IsKeyed, remove-IsKeyed}
use ll_vpn.NodeId.{NodeId, node_id_eq}
use ll_vpn.Router.{
  RouteEntry, RouteTable, new, upsert, remove, lookup, least_metric, is_to, best_route,
}

-- Every entry stands once, under its own target.
abbrev pub Routes : RouteTable → Type 0
Routes t = IsKeyed (λ (e : RouteEntry). e.target) t.routes

-- A call that changes the table.
pub data Change : Type 0 where
  add_entry : RouteEntry → Change
  remove_target : NodeId → Change

unfoldable pub change : Change → RouteTable → RouteTable
change (add_entry e) t = upsert e t
change (remove_target target) t = (remove target t).0

unfoldable pub change_all : List Change → RouteTable → RouteTable
unfolding change
change_all [] t = t
change_all (c ∷ cs) t = change_all cs (change c t)

change-Routes : (c : Change) (t : RouteTable) → Routes t → Routes (change c t)
unfolding change upsert remove
change-Routes (add_entry e) t h = insert-IsKeyed (λ (r : RouteEntry). r.target) e t.routes h
change-Routes (remove_target target) t h =
    remove-IsKeyed (λ (r : RouteEntry). r.target) target t.routes h

change_all-Routes : (cs : List Change) (t : RouteTable) → Routes t → Routes (change_all cs t)
unfolding change_all
change_all-Routes [] t h = h
change_all-Routes (c ∷ cs) t h = change_all-Routes cs (change c t) (change-Routes c t h)

abbrev ByTarget : HashMap NodeId RouteEntry → Type 0
ByTarget = Named (λ (e : RouteEntry). e.target)

keep-absent :
    (target : NodeId) (m : HashMap NodeId RouteEntry)
    → ByTarget m
    → HashMap.get target m ≡ none
    → keep (is_to target) (values m) ≡ []
unfolding values HashMap.get
keep-absent target [] h absent = refl
keep-absent target ((k, e) ∷ m) h absent = ground (arith, keep-absent target m h.1, absent, h.0)

best-get :
    (target : NodeId) (m : HashMap NodeId RouteEntry)
    → Distinct m
    → ByTarget m
    → least_metric (keep (is_to target) (values m)) ≡ HashMap.get target m
unfolding values HashMap.get least_metric
best-get target [] d h = refl
best-get target ((k, e) ∷ m) d h =
    ground (arith, best-get target m d.1 h.1, keep-absent target m h.1, h.0, d.0)

-- After any calls of `upsert` and `remove` on a new table, `best_route` finds what `lookup` finds: the table
-- has one route for a target at most, so that its metric decides nothing.
pub best_route-lookup :
    (target : NodeId) (cs : List Change)
    → best_route target (change_all cs new) ≡ lookup target (change_all cs new)
unfolding best_route lookup new
best_route-lookup target cs =
    let t = change_all-Routes cs (record { routes = [] }) (record { distinct = tt; named = tt }) in
    best-get target (change_all cs (record { routes = [] })).routes t.distinct t.named
