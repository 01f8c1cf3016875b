-- ===== src/Agent.antt =====
-- agent/: the session's loop and what it keeps.
pub mod LoopDetector
pub mod Loop
pub mod Run
pub mod Setup
pub mod Session
