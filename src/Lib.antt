-- ===== src/Lib.antt =====
-- A model of the core of ll-vpn, a peer-to-peer VPN in Rust, with what makes it correct.
--
-- Paths are from the root of the repository. A part is a module with child modules: the definitions stand
-- in the module itself, the proofs in its children, and small runs in its child Tests.
--
--   NodeId     src/vpn/identity.rs    the 32-byte identifier under which all tables are kept
--   Frame      src/vpn/relay.rs       message frames on TCP streams, the server's reading loop
--   Session    src/vpn/session.rs     a session's states, keys and counters; Session.Manager is the table
--   Dht        src/vpn/dht.rs         Dht.Bucket is KBucket, Dht.Distance the XOR metric and bucket index,
--                                     Dht.Table DhtManager, Dht.NodeList the list of contacts on the wire,
--                                     Dht.Messages process_message
--   Heartbeat  src/vpn/heartbeat.rs   heartbeat messages and the state of a node; Heartbeat.Manager is the table
--                                     of nodes and the thread of `start`
--   Handshake  src/vpn/handshake.rs   messages and timestamped payloads; Handshake.Ends is the initiator, the
--                                     responder and perform_handshake
--   HolePunch  src/vpn/hole_punch.rs  packets, `punch_hole` and the tables of attempts and peers
--   Pool       src/vpn/relay.rs       `ConnectionPool`
--   Relay      src/vpn/relay.rs       `TcpClient` and `RelayManager`, on top of Pool and Frame
--   Bootstrap  src/vpn/bootstrap.rs   the request codec, `bootstrap` and the table of known nodes
--   Storage    src/storage            Storage.Chunk is chunk.rs, Storage.Diff diff.rs, Storage.Version version.rs with
--                                     Storage.Version.Manager and the calendar of Storage.Calendar, Storage.Metadata
--                                     metadata.rs, Storage.Gc gc.rs
--   Address    src/address.rs         the trait `AddressResolver` as a record, and its two implementations
--   Router     src/router.rs          `RouteTable` and the table of `RouterManager`
--   Multihop   src/vpn/multihop.rs    routes over other nodes: `discover_route`, eviction, alternatives, expiry
--   Multipath  src/vpn/multipath.rs   `ReorderBuffer` and `fragment_data`: fragments and their order
--   Registry   src/registry/center.rs names and ids: `RegistryServer`; Registry.Cache is RegistryCache,
--                                     Registry.Messages process_message and the client's requests
--   Election   src/registry/election.rs who runs the registry: monitor, votes, terms; Election.Handle has the
--                                     handlers of messages
--   Common     what the others share: tests, lists, bits, words of bytes, and HashMap
--
-- How the parts meet: `handle_connection` of Frame takes frames off a stream; a frame of type `dht` carries
-- the bytes that `process_message` of Dht.Messages reads, and its answers are frames of Frame again. `send`
-- of Relay writes a frame to a stream of Pool, which the server's loop of Frame reads at the other end. The
-- tables of Session, Dht and Heartbeat are keyed by the ids of NodeId. The manifests that Storage.Chunk makes
-- are what Storage.Diff compares and Storage.Version keeps; Storage.Gc reads the versions and the metadata.
-- `discover_route` of Multihop takes its next hops from `find_node` of Dht.Table, and its errors are those of
-- Router. An election starts and stops the registry's server by a callback.
--
-- How code becomes definitions. A method with `&mut self`, or one that locks a table, is a function from
-- the state to the state it leaves, paired with what it returns; a lock that is held for a whole call makes
-- the call one step. Where `start` of Heartbeat releases the lock between its sends, each is a step of its
-- own, and Heartbeat.Run takes steps in any order. The calls of HolePunch follow each other. Functions keep
-- their names in snake case; a method of a manager that has its session's name is called `manager_…`.
--   * `Instant` and `Duration` are numbers of nanoseconds, Unix times numbers of seconds, and each reading
--     of a clock is an argument. `elapsed` is 0 for an instant in the future, as in the library.
--   * Sums on `u64` and `u32` wrap, as in a release build.
--   * A `String` is the bytes of its text. Texts of errors are data, one constructor for a text.
--   * A call that waits for a lock that its own caller holds never returns; its model is `none`.
--   * What a manager has written to its file is a field of its state; JSON is taken to be read as written.
--   * A `HashMap` is an association list: a new key goes to the end. That is one of the orders in which the
--     real map may be walked; theorems on maps speak of look-ups.
--   * `Vec::sort_by`, a stable sort, is an insertion sort.
--   * hex, sha2 and snow are crates, and the hasher of the standard library is not specified: their
--     functions, or the results of their functions, and the type of snow's states are arguments, and so is
--     what sockets answer. The readers and writers of serde_json for the payloads of Registry and Election
--     are arguments, of which Registry assumes where it says so that they read what they wrote. `send_fn` of
--     the heartbeat manager is an argument, and what it and the callbacks are called with is a list of
--     events; the calls of the callbacks of Election are a list of effects.
--
-- Loops are structural recursion on the list that they walk. The loop of `handle_connection` recurses on
-- the list of what the flag `running` says each time: a list with one more element than there are frames is
-- enough to come to the end of the stream. The loop of `insert` in Multipath takes a fragment out of the
-- buffer in each turn, and that of `fragment_data` takes a byte at least, so that the sizes of the buffer and
-- of the data are enough turns; the digits of a number in Common.Decimal are at most 20.
--
-- `punch_hole` makes three attempts, and its model takes what the socket answers in three.
--
-- Not modelled: accepting and timing out sockets, threads as such (the auto-save thread of the registry
-- saves nothing, that of an election only sleeps), logging, Display texts; of src/vpn/identity.rs keys, files
-- and hex; of src/vpn/bootstrap.rs the loaders; of src/storage/diff.rs the text of a report and the reading of
-- files; of src/address.rs the parsing; of src/vpn/multipath.rs the paths with their scores, which are
-- floating point numbers; and the parts in other files: src/vpn/{selfheal,stats,command,vpn_router}.rs,
-- src/storage/{incremental,download,encrypt}.rs, src/lan_router.rs and the programs
-- src/main.rs and src/bin/verify_election.rs.
pub mod Common
pub mod NodeId
pub mod Frame
pub mod Session
pub mod Dht
pub mod Heartbeat
pub mod Handshake
pub mod HolePunch
pub mod Pool
pub mod Relay
pub mod Bootstrap
pub mod Storage
pub mod Router
pub mod Multihop
pub mod Multipath
pub mod Address
pub mod Registry
pub mod Election
