-- ===== src/Device.antt =====
-- The memory devices behind the bus.
pub mod Memory
pub mod Rom
pub mod Ram
pub mod Video
pub mod Clint
