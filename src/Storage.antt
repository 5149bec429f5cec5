-- ===== src/Storage.antt =====
-- storage/: the Kademlia store, as far as it is modelled.
pub mod Bytes
pub mod Chunks
pub mod Table
pub mod Message
pub mod Node
pub mod Lookup
pub mod Hash
pub mod Files
mod Examples
