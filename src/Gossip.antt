-- ===== src/Gossip.antt =====
-- gossiper/: the gossip protocol under the other components.
pub mod Packet
pub mod Clock
pub mod Routing
pub mod Peers
pub mod Search
pub mod Node
pub mod Chain
pub mod Tlc
pub mod Rounds
pub mod Files
pub mod Main
mod Examples
