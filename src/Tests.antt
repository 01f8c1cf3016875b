-- ===== src/Tests.antt =====
-- Runs of the modelled code on small inputs, and the theorems at them.
mod Batch
mod Clients
mod Evaluators
mod Files
mod Limits
mod Loop
mod Parts
mod Registries
mod Sessions
mod Setup
mod Snapshots
