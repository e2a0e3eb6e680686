-- ===== src/Gateway/Tests.antt =====
-- Concrete runs of the gateway.
mod Pairing
mod Base64
pub mod Setting
mod Server
mod Http
