-- ===== src/Workflow.antt =====
-- modules/workflow: the engine that turns an order's template into tasks and moves them on.
pub mod TaskStatus
pub mod InstanceStatus
pub mod Skip
pub mod Store
pub mod Dependency
pub mod Generator
pub mod Engine
mod Tests
mod CreateTests
