-- ===== src/Arp.antt =====
-- src/protocols/arp.rs: the table of hardware addresses, the messages and their handlers.
pub mod Table
pub mod Message
pub mod Handlers
pub mod Exchange
