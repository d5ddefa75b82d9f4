-- ===== src/Wire.antt =====
-- The crate hla-wire.
pub mod Bytes
pub mod MessageType
pub mod MessageHeader
pub mod Frame
pub mod Payload
pub mod Sequence
pub mod Codec
pub mod Session
mod Examples
