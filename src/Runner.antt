-- ===== src/Runner.antt =====
-- The Tool Runner: the signed protocol that it accepts (`Ipc`), the Tools that it knows (`Registry`),
-- the checks before a Tool runs (`Authorization`), the receipts of its commits (`Receipt`), and the
-- journal of them (`Journal`).
pub mod Ipc
pub mod Registry
pub mod Authorization
pub mod Receipt
pub mod Journal
