-- ===== src/Drivers.antt =====
-- crates/infrastructure/src/drivers: the drivers that read devices over serial ports.
pub mod Serial
pub mod Modbus
pub mod Rs232
