-- ===== src/Dht.antt =====
-- src/vpn/dht.rs: a Kademlia table of 256 buckets, a store of values with a time to live, and the
-- messages between nodes.
pub mod Bucket
pub mod Distance
pub mod Table
pub mod NodeList
pub mod Messages
mod Tests
