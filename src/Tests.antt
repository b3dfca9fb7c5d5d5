-- ===== src/Tests.antt =====
-- Runs of the program's functions on small inputs, and the theorems at inputs where their
-- hypotheses hold.
mod Labels
mod Planner
mod Memory
mod Endpoints
mod Controller
mod Registry
mod Source
mod Kube
mod Mesh
mod Webhook
mod Names
mod Filters
