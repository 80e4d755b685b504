-- ===== src/Workflow/Engine.antt =====
-- modules/workflow/workflow.engine.ts: the state-changing operations. Each transaction is a
-- function of the store: an error leaves the store as it was, which is what a rollback does. The
-- events that are published after the commit come back beside the new store. `now` is the instant
-- of `new Date()`.
pub mod Types
pub mod Advance
pub mod Create
pub mod Rework
pub mod Qc
pub mod Cancel
pub mod Correction
pub mod Trace
