-- ===== src/Tcp.antt =====
-- src/protocols/ip/tcp.rs: control blocks, segments, the arrival of a segment, user commands.
pub mod Types
pub mod Pcbs
pub mod Segment
pub mod World
pub mod Early
pub mod Phases
pub mod Arrives
pub mod Retransmit
pub mod Commands
pub mod Sending
pub mod Progress
pub mod Delivery
pub mod Allocate
pub mod Queue
pub mod Window
pub mod Live
pub mod System
pub mod Ports
pub mod Passes
pub mod Handshake
pub mod Advance
pub mod Transfer
pub mod Overdue
pub mod Widths
pub mod Rounds
pub mod Select
pub mod Capacity
