-- ===== src/Access.antt =====
-- src/minemonitor/access: gate passages, Mine Monitor's own verdict on them, and body searches.
pub mod Model
mod Tests
pub mod Service
pub mod Quarantine
pub mod Search
