-- ===== src/Vision.antt =====
-- src/minemonitor/vision: the temporal rule engine and the edge node's outbox.
pub mod Temporal
pub mod TemporalEngine
pub mod EdgeOutbox
pub mod Publish
