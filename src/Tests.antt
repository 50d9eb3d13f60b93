-- ===== src/Tests.antt =====
-- Runs and examples of the theorems.
mod Policy
mod Runner
mod Journal
mod Tasks
mod Outbox
mod Admission
mod Effects
mod Dags
mod Ready
