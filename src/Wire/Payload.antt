-- ===== src/Wire/Payload.antt =====
-- crates/hla-wire/src/framing.rs: the typed message bodies, a module for each.
pub mod NewSession
pub mod StatusReason
pub mod NewSessionStatus
pub mod ResumeStatus
pub mod ResumeRequest
pub mod CallResponse
pub mod CallbackResponse
pub mod RoundTrip
