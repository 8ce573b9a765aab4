-- ===== src/Multihop.antt =====
-- src/vpn/multihop.rs: routes over a next hop, found in the DHT. Instants are numbers of nanoseconds, and
-- each method takes the time that it reads. `relay` is stored and never read.
pub mod Evict
pub mod Invariant
pub mod Run
pub mod Discover
pub mod Alternative
mod Tests
use Prim.Native.Nat.{bit_xor}
use ll_vpn.Common.{
  ℕ, zero, suc, ◌+◌, ◌-◌, ◌*◌, ◌%◌, ◌^◌, ite, Bool, true, false, not, ◌&&◌, List, [], ◌∷◌, Option,
  none, some, ltb, leb, ◌==◌, if◌then◌else◌, length, take, keep, get_or, from_be, Result, ok, err,
  Bytes,
}
use ll_vpn.Common.HashMap
use ll_vpn.Common.HashMap.{HashMap, retain, keys, contains_key}
use ll_vpn.Common.Sorting.{sort_by}
use ll_vpn.NodeId.{NodeId, NodeId-discrete, node_id_eq}
use ll_vpn.Session.{from_secs, elapsed}
use ll_vpn.Dht.Distance.{xor_distance}
use ll_vpn.Dht.Table.{DhtManager, find_node}
use ll_vpn.Router.{
  RouterError, no_route, send_failed, invalid_data, ConnectionType, lan, vpn, relay, unknown,
}

abbrev pub max_route_entries : ℕ
max_route_entries = 1000

abbrev pub default_route_timeout_secs : ℕ
default_route_timeout_secs = 300

abbrev pub metric_per_hop : ℕ
metric_per_hop = 100

abbrev pub metric_relay_penalty : ℕ
metric_relay_penalty = 50

abbrev pub metric_direct_penalty : ℕ
metric_direct_penalty = 10

abbrev pub cleanup_interval_secs : ℕ
cleanup_interval_secs = 60

abbrev pub k_candidates_max : ℕ
k_candidates_max = 10

-- `enum RouteMessageType`
pub data RouteMessageType : Type 0 where
  route_discovery route_reply route_error : RouteMessageType

unfoldable pub type_from_u8 : ℕ → Option RouteMessageType
type_from_u8 b =
    if b == 0x01
    then some route_discovery
    else if b == 0x02
    then some route_reply
    else if b == 0x03
    then some route_error
    else none

unfoldable pub type_to_u8 : RouteMessageType → ℕ
type_to_u8 route_discovery = 0x01
type_to_u8 route_reply = 0x02
type_to_u8 route_error = 0x03

-- `struct MultiHopEntry`
pub record MultiHopEntry : Type 0 where
  pub target : NodeId
  pub next_hop : NodeId
  pub hop_count : ℕ
  pub metric : ℕ
  pub connection_type : ConnectionType
  pub last_active : ℕ
  pub expires_at : ℕ
  pub candidates : List (NodeId × Bytes)

-- At most 255 hops: the `u32` does not overflow.
unfoldable pub calculate_metric : ℕ → ConnectionType → ℕ
calculate_metric hop_count relay = hop_count * metric_per_hop + metric_relay_penalty
calculate_metric hop_count lan = hop_count * metric_per_hop + metric_direct_penalty
calculate_metric hop_count vpn = hop_count * metric_per_hop + metric_direct_penalty
calculate_metric hop_count unknown = hop_count * metric_per_hop + 999

unfoldable pub new_entry :
    ℕ → NodeId → NodeId → ℕ → ConnectionType → List (NodeId × Bytes) → MultiHopEntry
unfolding calculate_metric
new_entry now target next_hop hop_count connection_type candidates = record {
  target = target;
  next_hop = next_hop;
  hop_count = hop_count;
  metric = calculate_metric hop_count connection_type;
  connection_type = connection_type;
  last_active = now;
  expires_at = now + from_secs default_route_timeout_secs;
  candidates = candidates;
}

unfoldable pub is_expired : ℕ → MultiHopEntry → Bool
is_expired now e = leb e.expires_at now

unfoldable pub refresh : ℕ → MultiHopEntry → MultiHopEntry
refresh now e = record e {
  last_active = now;
  expires_at = now + from_secs default_route_timeout_secs;
}

unfoldable pub is_direct : MultiHopEntry → Bool
is_direct e = e.hop_count == 1

abbrev pub Routes : Type 0
Routes = HashMap NodeId MultiHopEntry

-- `struct MultihopManager`
pub record MultihopManager : Type 0 where
  pub local_id : NodeId
  pub routes : Routes
  pub dht : Option DhtManager
  pub max_entries : ℕ
  pub last_cleanup : ℕ

unfoldable pub new : ℕ → NodeId → MultihopManager
new now local_id = record {
  local_id = local_id;
  routes = [];
  dht = none;
  max_entries = max_route_entries;
  last_cleanup = now;
}

unfoldable pub set_dht : DhtManager → MultihopManager → MultihopManager
set_dht d m = record m { dht = some d }

-- `min_by_key(|(_, e)| e.last_active)`: the first of the least.
unfoldable pub oldest : Routes → Option (NodeId × ℕ)
oldest [] = none
oldest ((k, e) ∷ m) = elim (oldest m) [
  | none ↦ some (k, e.last_active)
  | some best ↦ some (if leb e.last_active best.1 then (k, e.last_active) else best)
]

-- The table with room for one more.
unfoldable pub without_oldest : Routes → Routes
unfolding oldest
without_oldest routes = elim (oldest routes) [ none ↦ routes | some o ↦ HashMap.remove o.0 routes ]

unfoldable pub insert_or_evict : MultiHopEntry → MultihopManager → MultihopManager
unfolding without_oldest
insert_or_evict e m =
    let direct = record m { routes = HashMap.insert e.target e m.routes } in
    if contains_key e.target m.routes
    then direct
    else if ltb (length m.routes) m.max_entries
    then direct
    else record m { routes = HashMap.insert e.target e (without_oldest m.routes) }

-- The first 16 bytes of the distance.
unfoldable pub xor_distance_u128 : NodeId → NodeId → ℕ
xor_distance_u128 a b = from_be (take 16 (xor_distance a b))

abbrev pub nearer_to : NodeId → NodeId × Bytes → NodeId × Bytes → Bool
nearer_to target a b = leb (xor_distance_u128 a.0 target) (xor_distance_u128 b.0 target)

abbrev pub is_not : NodeId → NodeId × Bytes → Bool
is_not id c = ite (NodeId-discrete c.0 id) false true

-- The route over the first of the sorted candidates.
unfoldable pub route_over : ℕ → NodeId → NodeId × Bytes → List (NodeId × Bytes) → MultiHopEntry
unfolding new_entry
route_over now target first others =
    let fallback = take k_candidates_max (keep (is_not first.0) others) in
    ite (NodeId-discrete first.0 target) (new_entry now target first.0 1 lan fallback)
      (new_entry now target first.0 2 relay fallback)

unfoldable pub route_from :
    ℕ
    → NodeId
    → List (NodeId × Bytes)
    → MultihopManager
    → MultihopManager × Result RouterError (Unit {0})
unfolding insert_or_evict route_over
route_from now target [] m = (m, err (no_route target))
route_from now target (first ∷ others) m =
    (insert_or_evict (route_over now target first others) m, ok tt)

-- The part of `discover_route` behind the check of the target.
unfoldable pub discover_over :
    ℕ
    → NodeId
    → Option DhtManager
    → MultihopManager
    → MultihopManager × Result RouterError (Unit {0})
unfolding route_from xor_distance_u128
discover_over now target none m = (m, err send_failed)
discover_over now target (some d) m =
    route_from now target (sort_by (nearer_to target) (find_node d target)) m

unfoldable pub discover_route :
    ℕ → NodeId → MultihopManager → MultihopManager × Result RouterError (Unit {0})
unfolding discover_over
discover_route now target m =
    ite (NodeId-discrete target m.local_id) (m, err invalid_data) (discover_over now target m.dht m)

unfoldable pub add_direct_route : ℕ → NodeId → Bytes → MultihopManager → MultihopManager
unfolding insert_or_evict new_entry
add_direct_route now target addr m =
    ite (NodeId-discrete target m.local_id) m
      (insert_or_evict (new_entry now target target 1 lan ((target, addr) ∷ [])) m)

unfoldable pub find_route : ℕ → NodeId → MultihopManager → Option MultiHopEntry
unfolding is_expired
find_route now target m = elim (HashMap.get target m.routes) [
  | none ↦ none
  | some e ↦ if is_expired now e then none else some e
]

unfoldable pub next_hop : ℕ → NodeId → MultihopManager → Result RouterError NodeId
unfolding find_route
next_hop now target m = elim (find_route now target m) [
  | none ↦ err (no_route target)
  | some e ↦ ok e.next_hop
]

unfoldable pub remove_route : NodeId → MultihopManager → MultihopManager × Option MultiHopEntry
remove_route target m =
    (record m { routes = HashMap.remove target m.routes }, HashMap.get target m.routes)

abbrev pub expiring_at : ℕ → MultiHopEntry → MultiHopEntry
expiring_at t e = record e { expires_at = t }

-- The clock has run for a second at least.
unfoldable pub mark_invalid : ℕ → NodeId → MultihopManager → MultihopManager
mark_invalid now target m = record m {
  routes = HashMap.update target (expiring_at (now - from_secs 1)) m.routes;
}

-- The first candidate that is neither the next hop in use nor the local node.
unfoldable pub next_best : NodeId → NodeId → List (NodeId × Bytes) → Option NodeId
next_best current local [] = none
next_best current local (c ∷ cs) =
    let rest = next_best current local cs in
    if is_not current c && is_not local c then some c.0 else rest

unfoldable pub relayed : ℕ → NodeId → NodeId → MultiHopEntry → MultiHopEntry
unfolding calculate_metric
relayed now target best old = record {
  target = target;
  next_hop = best;
  hop_count = old.hop_count;
  metric = calculate_metric old.hop_count relay;
  connection_type = relay;
  last_active = now;
  expires_at = now + from_secs default_route_timeout_secs;
  candidates = old.candidates;
}

unfoldable pub find_alternative :
    ℕ → NodeId → MultihopManager → MultihopManager × Result RouterError (Unit {0})
unfolding next_best relayed
find_alternative now target m = elim (HashMap.get target m.routes) [
  | none ↦ (m, err (no_route target))
  | some old ↦ elim (next_best old.next_hop m.local_id old.candidates) [
    | none ↦ (m, err (no_route target))
    | some best ↦
        (record m { routes = HashMap.insert target (relayed now target best old) m.routes }, ok tt)
  ]
]

-- One turn of the loop of `refresh_stale_routes`: a route that is not found again is kept for longer.
unfoldable pub refresh_one : ℕ → NodeId → MultihopManager → MultihopManager × Bool
unfolding discover_route
refresh_one now target m =
    let found = discover_route now target m in
    elim found.1 [
      | ok _ ↦ (found.0, true)
      | err _ ↦ (
        record found.0 {
          routes =
              HashMap.update target (expiring_at (now + from_secs default_route_timeout_secs))
                found.0.routes;
        },
        false,
      )
    ]

unfoldable pub refresh_each : ℕ → List NodeId → MultihopManager → MultihopManager × ℕ
unfolding refresh_one
refresh_each now [] m = (m, 0)
refresh_each now (t ∷ ts) m =
    let first = refresh_one now t m in
    let rest = refresh_each now ts first.0 in (rest.0, (if first.1 then suc rest.1 else rest.1))

unfoldable pub refresh_stale_routes : ℕ → MultihopManager → MultihopManager × ℕ
unfolding refresh_each is_expired
refresh_stale_routes now m = refresh_each now (keys (retain (λ _ e. is_expired now e) m.routes)) m

unfoldable pub route_count : MultihopManager → ℕ
route_count m = length m.routes

unfoldable pub insert_route : MultiHopEntry → MultihopManager → MultihopManager
unfolding insert_or_evict
insert_route e m = insert_or_evict e m

unfoldable pub find_routes_by_next_hop : NodeId → MultihopManager → List NodeId
find_routes_by_next_hop hop m =
    keys (retain (λ _ e. ite (NodeId-discrete e.next_hop hop) true false) m.routes)

unfoldable pub cleanup_expired : ℕ → MultihopManager → MultihopManager × ℕ
unfolding is_expired
cleanup_expired now m =
    let left = retain (λ _ e. not (is_expired now e)) m.routes in
    if ltb (elapsed now m.last_cleanup) (from_secs cleanup_interval_secs)
    then (m, 0)
    else (record m { routes = left; last_cleanup = now }, length m.routes - length left)
