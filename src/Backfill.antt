-- ===== src/Backfill.antt =====
-- The throttling of the backfill chains: service/backfillgate.go and service/backfillretry.go.
pub mod Gate
pub mod Retry
