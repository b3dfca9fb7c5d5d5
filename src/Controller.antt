-- ===== src/Controller.antt =====
-- controller/controller.go: the loop that keeps a provider in step with the sources.
pub mod Run
pub mod Safety
pub mod Reports
pub mod Verified
pub mod Schedule
pub mod Spacing
