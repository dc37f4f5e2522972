-- ===== src/Zones.antt =====
-- src/minemonitor/zones: the debounce machine and the counting of who is inside.
pub mod Engine
