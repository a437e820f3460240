-- ===== src/Actions.antt =====
-- The action engine (apps/api/src/action-engine) and the consent of users to AI agents
-- (apps/api/src/context-broker).
pub mod Consent
pub mod Registry
pub mod Engine
