-- ===== src/Bootstrap/Tests.antt =====
-- src/vpn/bootstrap.rs: a request and a manager with one bootstrap node.
use ll_vpn.Common.{ℕ, refl, [], ◌∷◌, arith, Bytes}
use ll_vpn.NodeId.{filled}
use ll_vpn.Dht.NodeList.{is_utf8}
use ll_vpn.Bootstrap.{BootstrapRequest, report_node, BootstrapManager}
use ll_vpn.Bootstrap.RoundTrip.{IsRequest}

abbrev ask : BootstrapRequest
ask = record {
  request_type = report_node;
  sender_id = filled 2;
  sender_name = b'n' ∷ [];
  timestamp = 70;
}

ask-IsRequest : IsRequest ask
unfolding is_utf8
ask-IsRequest = record {
  sender = record { size = refl; in_range = ground arith };
  text = refl;
  short = omega arith;
  timed = omega arith;
}

abbrev manager : BootstrapManager
manager = record {
  local_id = filled 1;
  local_name = [];
  nodes = record { host = b'h' ∷ []; port = 80; priority = 0 } ∷ [];
  known_nodes = [];
  connected_bootstrap = [];
}

abbrev to_text : ℕ → Bytes
to_text n = b'0' ∷ []
