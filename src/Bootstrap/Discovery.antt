-- ===== src/Bootstrap/Discovery.antt =====
-- src/vpn/bootstrap.rs, `bootstrap`: its result and the list of connected nodes.
use ll_vpn.Common.{ℕ, ◌≡◌, ◌≢◌, refl, true, List, [], ◌∷◌, ◌++◌, err, Bytes}
use ll_vpn.Bootstrap.{
  BootstrapNode, all_nodes_unreachable, BootstrapManager, connect_to_bootstrap_node, addr,
  try_nodes, no_nodes, bootstrap, is_bootstrapped,
}

module _ (to_text : ℕ → Bytes) where
  abbrev pub addresses : List BootstrapNode → List Bytes
  addresses [] = []
  addresses (node ∷ nodes) = addr to_text node ∷ addresses nodes

  try_nodes-all : (nodes : List BootstrapNode) → try_nodes to_text nodes ≡ ([], addresses nodes)
  unfolding try_nodes connect_to_bootstrap_node
  try_nodes-all [] = refl
  try_nodes-all (node ∷ nodes) = rw (try_nodes-all nodes)

  still_connected :
      (m : BootstrapManager) (old : List Bytes) (a : Bytes) (as' : List Bytes)
      → is_bootstrapped (record m { connected_bootstrap = old ++ (a ∷ as') }) ≡ true
  unfolding is_bootstrapped
  still_connected m [] a as' = refl
  still_connected m (o ∷ old) a as' = refl

  unfoldable Unreached : BootstrapManager → Type 0
  Unreached m =
      ((bootstrap to_text m).1 ≡ err all_nodes_unreachable)
      × ((bootstrap to_text m).0.connected_bootstrap ≡ m.connected_bootstrap ++ addresses m.nodes)
      × (is_bootstrapped (bootstrap to_text m).0 ≡ true)

  unreachable_from :
      (m : BootstrapManager) (nodes : List BootstrapNode)
      → m.nodes ≡ nodes
      → nodes ≢ []
      → Unreached m
  unfolding Unreached bootstrap no_nodes
  unreachable_from m [] e some_node = absurd (some_node refl)
  unreachable_from m (node ∷ nodes) e some_node =
      rw (e, try_nodes-all nodes)
        (
          refl,
          refl,
          still_connected (record m { nodes = node ∷ nodes }) m.connected_bootstrap
              (addr to_text node) (addresses nodes),
        )

  -- With at least one node in the configuration, `bootstrap` fails with `AllNodesUnreachable`, and yet
  -- every node of the configuration is listed as connected, so that `is_bootstrapped` holds.
  pub bootstrap_unreachable :
      (m : BootstrapManager)
      → m.nodes ≢ []
      → ((bootstrap to_text m).1 ≡ err all_nodes_unreachable)
        × ((bootstrap to_text m).0.connected_bootstrap ≡ m.connected_bootstrap ++ addresses m.nodes)
        × (is_bootstrapped (bootstrap to_text m).0 ≡ true)
  unfolding Unreached
  bootstrap_unreachable m some_node = unreachable_from m m.nodes refl some_node
