-- ===== src/Gateway/Http.antt =====
-- The HTTP routes of liveclaw-gateway/src/server.rs: webhooks of chat platforms, the polling of
-- outboxes and the management of jobs.
pub mod Payloads
pub mod Ingress
pub mod Handlers
pub mod Router
pub mod Parity
pub mod Refusals
