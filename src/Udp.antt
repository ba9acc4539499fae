-- ===== src/Udp.antt =====
-- src/protocols/ip/udp.rs: control blocks, datagrams and the socket commands.
pub mod Pcbs
pub mod Datagram
pub mod Socket
pub mod Delivery
pub mod Bound
pub mod Mailbox
pub mod Ports
pub mod Apart
