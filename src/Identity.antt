-- ===== src/Identity.antt =====
-- Identity and authorization (app/identity), and the accounts of the subjects.
pub mod Policy
pub mod Accounts
