-- ===== src/Device.antt =====
-- The inverter, its optional sub-systems and its meters: fronius_modbus_api/device.py.
pub mod Library
pub mod Scan
pub mod State
pub mod Meters
pub mod Setup
pub mod Poll
pub mod Addresses
pub mod Kept
pub mod Fixed
pub mod Reported
pub mod Outage
pub mod Identity
pub mod Channels
mod Tests
mod PartTests
