-- ===== src/Policy.antt =====
-- The policy that decides which Tool calls may run: the facts that it reads (`Risk`, `Resource`,
-- `Request`), and their evaluation.
pub mod Risk
pub mod Resource
pub mod Request
pub mod Engine
pub mod Decisions
pub mod Verdicts
pub mod Scope
pub mod Normal
pub mod Injective
pub mod Grant
