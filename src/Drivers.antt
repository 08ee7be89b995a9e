-- ===== src/Drivers.antt =====
-- src/drivers: the parts of the drivers that are not port input and output.
pub mod Keyboard
