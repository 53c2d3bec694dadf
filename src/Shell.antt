-- ===== src/Shell.antt =====
-- The Windows shell application: its page controller and the frames between it and its worker.
pub mod Controller
pub mod Protocol
