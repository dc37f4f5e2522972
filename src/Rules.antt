-- ===== src/Rules.antt =====
-- src/minemonitor/rules: zone rules, their alarms, and the periodic checks.
pub mod Config
pub mod Evaluate
pub mod Occupancy
pub mod Offline
