-- ===== src/V2.antt =====
-- crates/cipherfs-core/src/v2.rs: the container format, its keys and its index.
pub mod Types
pub mod Typed
pub mod Limits
pub mod Crypto
pub mod Aad
pub mod Keys
pub mod Container
pub mod Password
pub mod Names
pub mod Index
pub mod Chunk
