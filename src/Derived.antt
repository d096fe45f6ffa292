-- ===== src/Derived.antt =====
-- Values that no single register carries: derived.py.
pub mod Throttle
pub mod Grid
pub mod Load
pub mod Total
mod Tests
