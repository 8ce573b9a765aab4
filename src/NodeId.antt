-- ===== src/NodeId.antt =====
-- src/vpn/identity.rs: the 32-byte identifier of a node.
use ll_vpn.Common.{
  ℕ, ◌≡◌, refl, some, [], ◌∷◌, length, All, replicate, Eq, ℕ_discrete, Bytes, IsByte,
}
use ll_vpn.Common.HashMap

-- `struct NodeID([u8; 32])`. The size of the array is the predicate below.
pub record NodeId : Type 0 where
  pub bytes : Bytes

-- Any 32 bytes are a node id, and nothing else is.
pub record IsNodeId (id : NodeId) : Type 0 where
  pub size : length id.bytes ≡ 32
  pub in_range : All IsByte id.bytes

unfoldable pub NodeId-discrete : Discrete NodeId
NodeId-discrete = hlevel ℕ_discrete

instance abbrev pub node_id_eq : Eq NodeId
node_id_eq = record { eq = NodeId-discrete }

unfoldable pub Bytes-discrete : Discrete Bytes
Bytes-discrete = hlevel ℕ_discrete

-- Hashes are keys too.
instance abbrev pub bytes_eq : Eq Bytes
bytes_eq = record { eq = Bytes-discrete }

unfoldable pub from_bytes : Bytes → NodeId
from_bytes bs = record { bytes = bs }

-- Ids of one repeated byte, such as those that the repository's tests use.
abbrev pub filled : ℕ → NodeId
filled b = record { bytes = replicate 32 b }

lookup_test : HashMap.get {V = ℕ} (filled 3) ((filled 1, 10) ∷ (filled 3, 30) ∷ []) ≡ some 30
unfolding HashMap.get NodeId-discrete ℕ_discrete
lookup_test = refl
