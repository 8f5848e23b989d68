-- ===== src/Sync.antt =====
-- The sync API (backend/sync-api/src): `SyncService` (sync/sync.service.ts) and the entities that it
-- keeps. `Items` is push and pull, `Vaults` the vault envelopes and the legacy vault keys. Times are
-- milliseconds; `toISOString` and `new Date(text)` are not modelled. `toLowerCase` is an argument.
pub mod Items
pub mod Vaults
