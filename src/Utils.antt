-- ===== src/Utils.antt =====
-- src/utils: byte orders, structs as bytes, the Internet checksum and the linked list.
pub mod Byte
pub mod Cksum
pub mod LinkedList
