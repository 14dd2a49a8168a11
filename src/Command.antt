-- ===== src/Command.antt =====
-- The command layer that every write route shares (app/pats/command-support.ts): problems, the
-- work of a transaction, the request headers and the idempotent execution of a command.
pub mod Problem
pub mod Work
pub mod Request
pub mod Idempotency
pub mod Audit
