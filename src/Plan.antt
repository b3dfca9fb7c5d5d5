-- ===== src/Plan.antt =====
-- plan/plan.go: the table of names and the changes that take the current records to the desired ones.
pub mod Table
pub mod Policy
pub mod Conflict
pub mod Calculate
