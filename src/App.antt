-- ===== src/App.antt =====
-- The parts of liveclaw-app.
pub mod RateLimiter
pub mod Reconnect
pub mod Cli
pub mod Compaction
pub mod Config
pub mod Provider
pub mod ShellInjection
pub mod Tests
pub mod Operation
pub mod Lifecycle
pub mod Runner
pub mod Forwarder
pub mod Tools
pub mod Memory
