-- ===== src/Sharing.antt =====
-- The sharing service (backend/sharing-service/src).
pub mod ShareLink
pub mod SharedVault
pub mod ShareInvite
pub mod Emergency
pub mod KeyDirectory
