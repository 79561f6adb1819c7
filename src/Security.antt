-- ===== src/Security.antt =====
-- Credentials (backend/geolytics/security).
pub mod ApiKeys
pub mod Passwords
pub mod Tokens
