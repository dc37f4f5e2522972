-- ===== src/Operations.antt =====
-- src/minemonitor/operations: the incident lifecycle.
pub mod Incidents
