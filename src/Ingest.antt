-- ===== src/Ingest.antt =====
-- src/minemonitor/ingest: how data enters the platform.
pub mod Teltonika
