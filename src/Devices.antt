-- ===== src/Devices.antt =====
-- crates/application/src/device: the actor that polls a device, and the manager of the actors.
pub mod Actor
pub mod Manager
