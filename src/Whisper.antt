-- ===== src/Whisper.antt =====
-- whisper/: the envelopes with their topics, bloom filters and proof of work.
pub mod Bloom
pub mod Topic
pub mod Routing
pub mod Envelopes
pub mod Node
pub mod Filters
mod Examples
