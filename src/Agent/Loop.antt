-- ===== src/Agent/Loop.antt =====
-- agent/loop.go: the state machine of a run, a handler for each state.
pub mod State
pub mod Effects
pub mod Plan
pub mod Stream
pub mod Planning
pub mod Interrupt
pub mod Execute
pub mod Evaluate
pub mod Complete
