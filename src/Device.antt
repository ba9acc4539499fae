-- ===== src/Device.antt =====
-- src/devices and src/drivers: network devices, the Ethernet and loopback links, the drivers.
pub mod Types
pub mod Ethernet
pub mod Loopback
pub mod Dispatch
pub mod Frames
pub mod Interrupts
