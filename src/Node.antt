-- ===== src/Node.antt =====
-- The client and server library (node/).
pub mod Errors
pub mod PeerHeap
pub mod Services
pub mod Request
pub mod OutResponse
pub mod ArgStream
pub mod Operations
pub mod V2
