-- ===== src/Oauth.antt =====
-- The OAuth provider (apps/api/src/oauth).
pub mod AuthCode
pub mod RefreshToken
