-- ===== src/Analytics.antt =====
-- The analytics worker's way from consumed events to ClickHouse.
pub mod Writer
pub mod Normalizer
