-- ===== src/Bridge.antt =====
-- The bridge between the ggsql crate and the database: src/ggsql_bridge.cpp, rust/src/ffi.rs,
-- rust/src/reader.rs and rust/src/dialect.rs.
pub mod Buffer
pub mod Callback
pub mod Reader
pub mod Normalise
pub mod Answered
pub mod Cleaned
pub mod OnceOpened
pub mod Dialect
pub mod Quoted
pub mod Forwarder
pub mod Forwarded
pub mod Joined
mod Tests
