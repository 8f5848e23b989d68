-- ===== src/Analysis.antt =====
-- The service for security analysis (backend/security-analysis-service/src).
pub mod Reputation
pub mod Guard
pub mod Insights
pub mod Scans
pub mod Breaches
