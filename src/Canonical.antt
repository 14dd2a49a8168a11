-- ===== src/Canonical.antt =====
-- The transport rules of the canonical routes: paging and sorting (app/canonical/collection.ts),
-- entity tags (app/canonical/preconditions.ts), and the idempotency of the catalogue.
pub mod Collection
pub mod Preconditions
pub mod Idempotency
