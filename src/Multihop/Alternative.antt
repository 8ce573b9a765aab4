-- ===== src/Multihop/Alternative.antt =====
-- src/vpn/multihop.rs, `find_alternative`: the route that takes the place of one that failed.
use ll_vpn.Common.{
  ℕ, ◌+◌, ◌*◌, ◌≡◌, ◌≢◌, ◌⊎◌, All, none, refl, inl, inr, false, List, [], ◌∷◌, some, Option-cases,
  Bytes, ok, err, arith,
}
use ll_vpn.Common.HashMap
use ll_vpn.Common.HashMap.{HashMap, get-insert}
use ll_vpn.Common.Sorting.{Any}
use ll_vpn.NodeId.{NodeId, node_id_eq}
use ll_vpn.Router.{no_route, relay}
use ll_vpn.Multihop.{
  MultiHopEntry, MultihopManager, next_best, relayed, find_alternative, find_route, is_expired,
  is_direct, calculate_metric,
}

relayed_fresh :
    (now : ℕ) (target best : NodeId) (old : MultiHopEntry)
    → is_expired now (relayed now target best old) ≡ false
unfolding relayed is_expired
relayed_fresh now target best old = ground arith

replaced :
    (now : ℕ) (target : NodeId) (m : MultihopManager) (old : MultiHopEntry) (best : NodeId)
    → HashMap.get target m.routes ≡ some old
    → next_best old.next_hop m.local_id old.candidates ≡ some best
    → find_route now target (find_alternative now target m).0 ≡ some (relayed now target best old)
unfolding find_alternative find_route
replaced now target m old best here found = ground (
  arith,
  here,
  found,
  get-insert target target (relayed now target best old) m.routes,
  relayed_fresh now target best old,
)

-- A candidate that may take the place of a next hop.
abbrev pub Usable : NodeId → NodeId → NodeId × Bytes → Type 0
Usable current local c = (c.0 ≢ current) × (c.0 ≢ local)

next_best-Usable :
    (current local best : NodeId) (cs : List (NodeId × Bytes))
    → next_best current local cs ≡ some best
    → Any (λ c. (c.0 ≡ best) × Usable current local c) cs
unfolding next_best
next_best-Usable current local best [] h = absurd (ground (arith, h))
next_best-Usable current local best (c ∷ cs) h =
    ground (arith, h, next_best-Usable current local best cs)

next_best-none :
    (current local : NodeId) (cs : List (NodeId × Bytes))
    → next_best current local cs ≡ none
    → All (λ c. ¬ Usable current local c) cs
unfolding next_best
next_best-none current local [] h = tt
next_best-none current local (c ∷ cs) h =
    (λ u. absurd (ground (arith, h, u.0, u.1)), next_best-none current local cs (ground (arith, h)))

-- For a target with a route, either a candidate of the route is neither its next hop nor the local node:
-- then `find_alternative` succeeds, and `find_route` finds a route over such a candidate, by a relay, with
-- the number of hops of the old one and the metric of a relay. The route still counts as direct if the old
-- one did. Or there is no such candidate: then it fails, and the table is as it was.
pub find_alternative-find_route :
    (now : ℕ) (target : NodeId) (m : MultihopManager) (old : MultiHopEntry)
    → HashMap.get target m.routes ≡ some old
    → (((find_alternative now target m).1 ≡ ok tt)
        × (e : MultiHopEntry) × (find_route now target (find_alternative now target m).0 ≡ some e)
        × Any (λ c. (c.0 ≡ e.next_hop) × Usable old.next_hop m.local_id c) old.candidates
        × (e.connection_type ≡ relay)
        × (e.hop_count ≡ old.hop_count)
        × (e.metric ≡ old.hop_count * 100 + 50)
        × (is_direct e ≡ is_direct old))
      ⊎ (All (λ c. ¬ Usable old.next_hop m.local_id c) old.candidates
          × (find_alternative now target m ≡ (m, err (no_route target))))
unfolding find_alternative
find_alternative-find_route now target m old here =
    elim (Option-cases (next_best old.next_hop m.local_id old.candidates)) [
      | inl stuck ↦ inr (
        next_best-none old.next_hop m.local_id old.candidates stuck,
        rw (find_alternative, here, stuck) refl,
      )
      | inr (best, found) ↦ inl (
        rw (find_alternative, here, found) refl,
        relayed now target best old,
        replaced now target m old best here found,
        unfold relayed in next_best-Usable old.next_hop m.local_id best old.candidates found,
        unfold relayed in refl,
        unfold relayed in refl,
        unfold relayed calculate_metric in refl,
        unfold is_direct relayed in refl,
      )
    ]
