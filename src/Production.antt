-- ===== src/Production.antt =====
-- modules/production: the execution of a task by an operator.
pub mod Execution
mod Tests
