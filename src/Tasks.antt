-- ===== src/Tasks.antt =====
-- backend/src/deskpilot/application/task_service.py: the tasks.
pub mod Status
pub mod Events
pub mod Cancel
pub mod Runs
pub mod Lifecycle
pub mod Numbering
pub mod Cancelled
pub mod Waiting
