-- ===== src/Storage.antt =====
-- The storage as the integration controls it: fronius_modbus_api/storage.py.
pub mod Modes
pub mod Derivation
pub mod Control
pub mod Sync
pub mod Fields
pub mod Live
pub mod SetMode
pub mod SetRate
pub mod Writes
pub mod Window
mod Tests
