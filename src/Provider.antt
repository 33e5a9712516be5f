-- ===== src/Provider.antt =====
-- Calls to AI providers: the repositories of budgets and circuits (Admission) and of shared failure domains
-- (FailureDomain), the errors (Taxonomy), a call with what it reads and changes (Execution), the call under
-- its reservations (Registry, Calls) and the routing of a workload (Routes, Router).
pub mod Admission
pub mod FailureDomain
pub mod Taxonomy
pub mod Execution
pub mod Registry
pub mod Calls
pub mod Routes
pub mod Router
