-- ===== src/Lib.antt =====
-- Mini Dynamo: a replicated key-value store in the manner of Dynamo, in C++ (src/ of the
-- repository).
--
-- A node owns a position on a consistent-hash ring and finds the owners of a key on it; SWIM gossip
-- tells it which nodes are up, down or retired, and its callbacks keep the ring in step; values
-- carry vector clocks, by which replicas decide what supersedes what. The parts and the files that
-- model them:
--   Clock (src/vector_clock.cpp): get, set, increment, compare, merge, operator== (`equals`), prune;
--     Clock/Wire is serialize and parse. A clock is the std::map as a list in key order.
--   Versioned (src/versioned_value.cpp): the stored text of a value, with its tombstone mark.
--   Base64 (src/base64.cpp): encode and decode.
--   Replica (src/replica_ops.cpp, src/storage/in_memory_storage.cpp): applyReplicate and readLocal
--     on the byte store. Replica/Verbs is the messages REPLICATE and READ
--     (src/net/tcp_replica_client.cpp, src/node.cpp).
--   AntiEntropy (src/antientropy/antientropy_thread.cpp): buildLocalTree and a round of the sync;
--     AntiEntropy/Merkle is the Merkle tree (src/antientropy/merkle_tree.cpp): insert, build, diff.
--   Ring (src/router.cpp, src/util.h): hash64, addPhysicalNode, removePhysicalNode, findOwners.
--     Ring/First describes the owners of a key by filters of the slots, with no loop.
--   Swim (src/gossip/swim.cpp): applyEvent in Swim, the calls a node makes for itself in Swim/Local,
--     the readers in Swim/Queries and Swim/Digest, all calls as one step in Swim/Step. Event and
--     NodeInfo are the records it works on (src/gossip/member_event.h, src/node_info.h); Event/Wire
--     is their text.
--   Gossip (src/gossip/gossip_thread.cpp): the handler of a SWIM message; Gossip/Tick is the
--     protocol round and the membership sync; Gossip/Ends is an event that is relayed, sent and comes
--     back, in any order; Gossip/Joining is joinViaSeeds. What a send brings
--     back is a function given to them.
--   Hints (src/hints/hint_store.cpp, src/hints/handoff_thread.cpp): the writes kept for nodes that
--     are down, with their cap, expiry and delivery; Hints/Rounds is a round of the handoff thread.
--   Coordinator (src/coordinator.cpp): bumpedClock, writeQuorum with stand-ins and hints,
--     coordinatePut, coordinateDelete; Coordinator/Reading is maximalVersions, coordinateGet and
--     read repair. It finds owners on Ring, stamps with Clock, stores through Replica and Hints, and
--     asks Swim, through a callback, who is alive.
--   Node (src/node.cpp): what a node is made of, its replies, and the callbacks by which a change of
--     membership reaches the ring (src/gossip/gossip_thread.cpp), the handoff and the hints
--     (src/main.cpp). Node/Requests is handleRequest with the handler of every verb, from the text
--     of a frame to the text of the reply. It calls Coordinator, Replica/Verbs, Ring and Gossip.
--     Node/Writes is a client's PUT as it writes it, and what it reads in a reply. Node/Connection
--     (src/net/tcp_server.cpp) serves the frames of a connection, from Net/Framing.
--   Net: Net/Framing (src/net/framing.cpp) is sendFramed and recvFramed; Net/Pool
--     (src/net/connection_pool.cpp) the connection pool, and Net/Replicas
--     (src/net/pooled_replica_client.cpp) the exchange over it with its retry, with
--     writeReplica and readReplica in Net/Replicas/Calls; Net/Workers (src/net/thread_pool.cpp) the
--     worker threads.
--   Base, Text and OrdMap are what they share: native numbers, strings as lists of bytes, decimal
--     text (std::to_string, std::stoull), and maps in key order for std::map and the hash maps whose
--     order nothing reads.
--
-- Mutexes make each call one step, so a model of a call is a function of the state; the handling of
-- a message, a round of the gossip thread, a delivery of hints and a request are sequences of such
-- calls, modelled with no other call in between. Clocks of the machine (the wall clock and the
-- steady clock) are arguments. Counters, times and incarnations are uint64_t: each sum wraps at
-- 2^64, and where a theorem needs that it does not, its statement says so. The walk of findOwners
-- runs on fuel, the number of slots of the ring and one, which is shown to be enough when every
-- member has a slot. The rounds of MerkleTree::diff run on fuel, the depth of the tree and one,
-- which is shown to be enough. The loop of a connection runs on fuel, a turn for each call of the
-- kernel, which is shown to be enough for requests that arrive whole. What the calls of the
-- operating system do (how many bytes move, an interrupt, a failure) is a list given to the framing.
-- The steps of the worker threads are a list of moves, in any order. The threads that wait for
-- replicas are a list of what happens at the lock, answers and wake-ups in any order, that ends at
-- the deadline. Lists stand for what the callbacks were told, in order.
--
-- Not modelled: the set-up of sockets and the accept loop (src/net/tcp_*.cpp), which are calls of
-- the operating system; threads and timers as such, with the loops that only call what is modelled
-- (the reaper, the gossip thread, the anti-entropy thread, the handoff thread); the random choices,
-- which are arguments; logging and metrics, which no decision reads; RocksDB; the start-up in
-- src/main.cpp apart from its callbacks; and the Java gateway.
pub mod AntiEntropy
pub mod Base
pub mod Base64
pub mod Clock
pub mod Coordinator
pub mod Event
pub mod Gossip
pub mod Hints
pub mod Net
pub mod Node
pub mod NodeInfo
pub mod OrdMap
pub mod Replica
pub mod Ring
pub mod Swim
pub mod Text
pub mod Versioned
