-- ===== src/Events.antt =====
-- The inverter's event log, as its web interface lists it: inverter_events.py.
pub mod Parse
pub mod Leading
pub mod Tracker
mod Tests
