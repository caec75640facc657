-- ===== src/Server.antt =====
-- The HTTP server of rust/src/server.rs, which keeps the plots of the session for the page.
pub mod Registry
pub mod Route
pub mod Standalone
pub mod Answers
pub mod Heartbeat
pub mod Delivery
pub mod Interleaving
mod Tests
