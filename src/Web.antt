-- ===== src/Web.antt =====
-- The inverter's web interface: the client of froniuswebclient.py, the readings of
-- component_readings.py, and the controls of web_control.py.
pub mod Text
pub mod Flags
pub mod Configs
pub mod Readings
pub mod Client
pub mod ExportLimit
pub mod Modbus
pub mod Meters
pub mod Control
pub mod Tokens
pub mod Simulated
mod Tests
