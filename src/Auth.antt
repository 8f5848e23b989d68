-- ===== src/Auth.antt =====
-- The authentication service (backend/auth-service/src/auth).
pub mod Srp
pub mod Login
pub mod Totp
pub mod Audit
pub mod Pat
