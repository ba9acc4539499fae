-- ===== src/Network.antt =====
-- Datagrams between two programs: from a command of src/protocols/ip/udp.rs through the network and
-- link layers of one, and from the interrupt of the other to its control block.
pub mod Sending
pub mod Arriving
pub mod Datagrams
