-- ===== src/Gateway.antt =====
-- The crate liveclaw-gateway: pairing, the protocol, and the server.
pub mod Pairing
pub mod Base64
pub mod Protocol
pub mod State
pub mod Handler
pub mod Access
pub mod Prompt
pub mod Sessions
pub mod Channels
pub mod Jobs
pub mod Dispatch
pub mod Isolation
pub mod Http
pub mod System
pub mod Tests
