-- ===== src/Node/V2.antt =====
-- Version 2 of the protocol (node/v2).
pub mod Rw
pub mod Header
pub mod Checksum
pub mod Bufrw
pub mod Tracing
pub mod Args
pub mod Call
pub mod Sending
pub mod Receiving
pub mod Streams
pub mod Delivery
pub mod Transfer
mod Tests
