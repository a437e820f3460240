-- ===== src/Economy.antt =====
-- NDYBITS and the events that earn them (apps/api/src/ndybits, apps/api/src/ecosystem-event).
pub mod Ledger
pub mod Reward
pub mod Ecosystem
