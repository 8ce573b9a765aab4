-- ===== src/Dht/Messages/Put.antt =====
-- src/vpn/dht.rs, `handle_put`: the bytes of a request, and what it does to the store.
use ll_vpn.Common.{ℕ, ◌++◌, length, Bytes, be_bytes}
use ll_vpn.NodeId.{NodeId}

-- What follows the key in a request, and a whole request.
abbrev pub value_part : Bytes → ℕ → Bytes
value_part value ttl = be_bytes 4 (length value) ++ (value ++ be_bytes 8 ttl)

abbrev pub request : Bytes → Bytes → ℕ → Bytes
request key value ttl = be_bytes 2 (length key) ++ (key ++ value_part value ttl)
