-- ===== src/Ip.antt =====
-- src/protocols/ip/mod.rs: addresses, routes, headers, input and output of the network layer.
pub mod Addr
pub mod Route
pub mod Header
pub mod Output
pub mod Input
pub mod Delivery
pub mod Errors
pub mod Ports
