-- ===== src/Rti.antt =====
-- The crate hla-rti.
pub mod Exception
pub mod Subscriptions
pub mod Callback
pub mod State
pub mod Routing
pub mod Defaults
mod Samples
pub mod Handler
pub mod SyncPoints
pub mod F64
mod Wholes
pub mod Time
pub mod TsoQueue
pub mod TimeQueries
pub mod TimeManagement
pub mod Save
pub mod Handles
pub mod Ownership
pub mod Declaration
pub mod Regions
pub mod DataFlow
pub mod HandleLookup
pub mod Federations
