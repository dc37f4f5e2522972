-- ===== src/Cycles.antt =====
-- src/minemonitor/cycles/statemachine.py: haul cycles from a stream of positions.
pub mod Visits
pub mod Stops
pub mod Queue
pub mod Analyse
