-- ===== src/Signal.antt =====
-- adssignal/: the Signal protocol over Whisper.
pub mod Elliptic
pub mod Primitives
pub mod Kdf
pub mod Aead
pub mod Ratchet
pub mod Identity
pub mod X3dh
pub mod Handler
mod Examples
