-- ===== src/Net.antt =====
-- The transport between nodes: src/net/framing.cpp, src/net/connection_pool.cpp,
-- src/net/pooled_replica_client.cpp and src/net/thread_pool.cpp.
pub mod Framing
pub mod Pool
pub mod Replicas
pub mod Workers
mod Examples
