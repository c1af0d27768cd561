-- ===== src/Node.antt =====
-- The node manager, internal/nodemgr: join requests and votes that the nodes pass on to each other.
pub mod Types
pub mod Manager
pub mod Peers
pub mod Votes
pub mod Gossip
pub mod Server
mod Sample
mod Tests
