-- ===== src/Pack.antt =====
-- Packing (pack.rs).
pub mod Encrypt
pub mod Scan
pub mod Build
