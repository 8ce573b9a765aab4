-- ===== src/Router.antt =====
-- src/router.rs: kinds of connections, the errors of routing, and the table of routes.
pub mod Best
mod Tests
use ll_vpn.Common.{
  ℕ, ite, Bool, true, false, List, [], ◌∷◌, Option, none, some, leb, ◌==◌, if◌then◌else◌, length,
  keep, Bytes,
}
use ll_vpn.Common.HashMap
use ll_vpn.Common.HashMap.{HashMap, values}
use ll_vpn.NodeId.{NodeId, NodeId-discrete, node_id_eq}

-- `enum RouterError`. The texts are kept where the code tells them apart.
pub data RouterError : Type 0 where
  unreachable : Bytes → RouterError
  timeout : RouterError
  no_route : NodeId → RouterError
  send_failed : RouterError
  node_offline : NodeId → RouterError
  invalid_data : RouterError

-- `enum ConnectionType`
pub data ConnectionType : Type 0 where
  lan vpn relay unknown : ConnectionType

-- `enum NodeStatus`
pub data NodeStatus : Type 0 where
  online offline connecting failed : NodeStatus

-- `struct RouterStatus`
pub record RouterStatus : Type 0 where
  pub node_status : NodeStatus
  pub connection_type : ConnectionType
  pub known_nodes : ℕ
  pub active_routes : ℕ
  pub last_update : ℕ

-- `struct RouteEntry`
pub record RouteEntry : Type 0 where
  pub target : NodeId
  pub next_hop : NodeId
  pub connection_type : ConnectionType
  pub metric : ℕ
  pub last_active : ℕ

-- `struct RouteTable`
pub record RouteTable : Type 0 where
  pub routes : HashMap NodeId RouteEntry

unfoldable pub new : RouteTable
new = record { routes = [] }

unfoldable pub upsert : RouteEntry → RouteTable → RouteTable
upsert e t = record { routes = HashMap.insert e.target e t.routes }

unfoldable pub remove : NodeId → RouteTable → RouteTable × Option RouteEntry
remove target t = (record { routes = HashMap.remove target t.routes }, HashMap.get target t.routes)

unfoldable pub lookup : NodeId → RouteTable → Option RouteEntry
lookup target t = HashMap.get target t.routes

unfoldable pub entries : RouteTable → List RouteEntry
entries t = values t.routes

unfoldable pub len : RouteTable → ℕ
len t = length t.routes

unfoldable pub is_empty : RouteTable → Bool
unfolding len
is_empty t = len t == 0

unfoldable pub clear : RouteTable → RouteTable
clear t = record { routes = [] }

-- `min_by_key(|e| e.metric)`: the first of the least.
unfoldable pub least_metric : List RouteEntry → Option RouteEntry
least_metric [] = none
least_metric (e ∷ es) = elim (least_metric es) [
  | none ↦ some e
  | some best ↦ some (if leb e.metric best.metric then e else best)
]

abbrev pub is_to : NodeId → RouteEntry → Bool
is_to target e = ite (NodeId-discrete e.target target) true false

unfoldable pub best_route : NodeId → RouteTable → Option RouteEntry
unfolding least_metric
best_route target t = least_metric (keep (is_to target) (values t.routes))

-- `struct RouterManager`
pub record RouterManager : Type 0 where
  pub route_table : RouteTable
  pub name : Bytes

unfoldable pub new_manager : Bytes → RouterManager
unfolding new
new_manager name = record { route_table = new; name = name }

unfoldable pub add_route : RouteEntry → RouterManager → RouterManager
unfolding upsert
add_route e m = record m { route_table = upsert e m.route_table }

unfoldable pub remove_route : NodeId → RouterManager → RouterManager × Option RouteEntry
unfolding remove
remove_route target m =
    (record m { route_table = (remove target m.route_table).0 }, (remove target m.route_table).1)

unfoldable pub find_route : NodeId → RouterManager → Option RouteEntry
unfolding lookup
find_route target m = lookup target m.route_table
