-- ===== src/Effects.antt =====
-- backend/src/deskpilot/application/task_service.py: the durable Tool effect graphs.
pub mod Definitions
pub mod NodeStatus
pub mod GraphStatus
pub mod Leases
pub mod Fences
pub mod Dag
pub mod Decisions
pub mod Reduce
pub mod Admissions
pub mod Compensation
pub mod Claims
pub mod Create
pub mod Nodes
pub mod Ready
