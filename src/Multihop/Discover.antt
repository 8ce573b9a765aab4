-- ===== src/Multihop/Discover.antt =====
-- src/vpn/multihop.rs, `discover_route`: which route it finds in the DHT.
use ll_vpn.Common.{
  ℕ, ◌≤◌, ◌≡◌, ◌≢◌, ◌↔◌, refl, ap, ◌∙◌, sym, subst, inl, inr, true, false, List, [], ◌∷◌, some, All,
  length, leb, Bytes, ok, arith,
}
use ll_vpn.Common.HashMap
use ll_vpn.Common.HashMap.{HashMap, contains_key, get-insert}
use ll_vpn.Common.Sorting.{sort_by, Any, Any-sort_by, First, First-sort_by, length-sort_by}
use ll_vpn.NodeId.{NodeId, NodeId-discrete, node_id_eq}
use ll_vpn.Dht.Table.{DhtManager, find_node}
use ll_vpn.Multihop.{
  MultiHopEntry, MultihopManager, without_oldest, insert_or_evict, xor_distance_u128, nearer_to,
  route_over, route_from, discover_over, discover_route, find_route, is_expired, is_direct,
  new_entry,
}

-- The entry that was put in is the one that is found.
get-insert_or_evict :
    (e : MultiHopEntry) (m : MultihopManager)
    → HashMap.get e.target (insert_or_evict e m).routes ≡ some e
unfolding insert_or_evict
get-insert_or_evict e m = ground (
  arith,
  get-insert e.target e.target e m.routes,
  get-insert e.target e.target e (without_oldest m.routes),
)

-- What a found route is: it leads to the target, it has not expired, its next hop is a node that the DHT
-- named and no other that it named is nearer to the target by the first 16 bytes, and it is direct exactly
-- if the next hop is the target.
pub record IsRoute (now : ℕ) (target : NodeId) (named : List (NodeId × Bytes)) (e : MultiHopEntry)
    : Type 0 where
  pub leads : e.target ≡ target
  pub fresh : is_expired now e ≡ false
  pub known : Any (λ c. c.0 ≡ e.next_hop) named
  pub nearest :
      (c : NodeId × Bytes)
      → Any (λ x. x ≡ c) named
      → xor_distance_u128 e.next_hop target ≤ xor_distance_u128 c.0 target
  pub direct : (is_direct e ≡ true) ↔ (e.next_hop ≡ target)

route_over-fields :
    (now : ℕ) (target : NodeId) (first : NodeId × Bytes) (others : List (NodeId × Bytes))
    → let e = route_over now target first others in
      (e.target ≡ target)
      × (is_expired now e ≡ false)
      × (e.next_hop ≡ first.0)
      × ((is_direct e ≡ true) ↔ (e.next_hop ≡ target))
unfolding route_over new_entry is_expired is_direct
route_over-fields now target first others = elim (NodeId-discrete first.0 target) [
  | yes same ↦ ground (arith, same)
  | no other ↦ ground (arith, other)
]

head-Least :
    (f : NodeId × Bytes → ℕ) (x c : NodeId × Bytes) (xs : List (NodeId × Bytes))
    → First f (x ∷ xs)
    → Any (λ y. y ≡ c) (x ∷ xs)
    → f x ≤ f c
head-Least f x c xs h (inl e) = omega (arith, ap f e)
head-Least f x c xs h (inr a) = among xs h a
  where
    among : (ys : List (NodeId × Bytes)) → All (λ y. f x ≤ f y) ys → Any (λ y. y ≡ c) ys → f x ≤ f c
    among [] k a = absurd a
    among (y ∷ ys) k (inl e) = omega (arith, k.0, ap f e)
    among (y ∷ ys) k (inr a) = among ys k.1 a

sort-empty :
    (f : NodeId × Bytes → ℕ) (xs : List (NodeId × Bytes))
    → xs ≢ []
    → sort_by (λ a b. leb (f a) (f b)) xs ≢ []
sort-empty f xs some_there e = some_there (empty xs (ap length e ∙ refl))
  where
    empty :
        (ys : List (NodeId × Bytes)) → length (sort_by (λ a b. leb (f a) (f b)) ys) ≡ 0 → ys ≡ []
    empty [] h = refl
    empty (y ∷ ys) h = absurd (omega (arith, h, length-sort_by (λ a b. leb (f a) (f b)) (y ∷ ys)))

over_sorted :
    (now : ℕ) (target : NodeId) (m : MultihopManager) (named sorted : List (NodeId × Bytes))
    → sorted ≡ sort_by (nearer_to target) named
    → named ≢ []
    → (e : MultiHopEntry) × ((route_from now target sorted m).1 ≡ ok tt)
      × (find_route now target (route_from now target sorted m).0 ≡ some e)
      × IsRoute now target named e
unfolding route_from find_route
over_sorted now target m named [] eq there =
    absurd (sort-empty (λ c. xor_distance_u128 c.0 target) named there (sym eq))
over_sorted now target m named (first ∷ others) eq there =
    let e = route_over now target first others in
    let fields = route_over-fields now target first others in
    let far : NodeId × Bytes → ℕ = λ c. xor_distance_u128 c.0 target in
    let least : First far (first ∷ others) = subst (First far) (sym eq) (First-sort_by far named) in
    (
      e,
      refl,
      ground (arith, get-insert_or_evict e m, fields.0, fields.1),
      record {
        leads = fields.0;
        fresh = fields.1;
        known =
            (Any-sort_by (λ c. c.0 ≡ e.next_hop) (nearer_to target) named).0
              (subst (Any (λ c. c.0 ≡ e.next_hop)) eq (inl (sym fields.2)));
        nearest = λ c is_named. rw (fields.2) (
            head-Least far first c others least (
              subst (Any (λ y. y ≡ c)) (sym eq)
                ((Any-sort_by (λ y. y ≡ c) (nearer_to target) named).1 is_named)));
        direct = fields.3;
      },
    )

discover_route-over :
    (now : ℕ) (target : NodeId) (m : MultihopManager) (d : DhtManager)
    → target ≢ m.local_id
    → m.dht ≡ some d
    → discover_route now target m
      ≡ route_from now target (sort_by (nearer_to target) (find_node d target)) m
unfolding discover_route discover_over
discover_route-over now target m d other bound = ground (arith, other, bound)

-- `discover_route` for another node than the local one, with a DHT that names a node at least, succeeds, and
-- `find_route` then finds a route to the target that has not expired, over a node that the DHT named and
-- than which it named none nearer to the target by the first 16 bytes; the route is direct exactly if that
-- node is the target.
pub discover_route-find_route :
    (now : ℕ) (target : NodeId) (m : MultihopManager) (d : DhtManager)
    → target ≢ m.local_id
    → m.dht ≡ some d
    → find_node d target ≢ []
    → (e : MultiHopEntry) × ((discover_route now target m).1 ≡ ok tt)
      × (find_route now target (discover_route now target m).0 ≡ some e)
      × IsRoute now target (find_node d target) e
discover_route-find_route now target m d other bound named =
    rw (discover_route-over now target m d other bound) (
      over_sorted now target m (find_node d target)
        (sort_by (nearer_to target) (find_node d target)) refl named)
