-- ===== src/Rpc.antt =====
-- rpc/src/protocol.rs: messages as frames on a byte stream.
pub mod Protocol
pub mod Frames
