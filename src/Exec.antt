-- ===== src/Exec.antt =====
-- The way of a query through src/ggsql_exec.cpp and rust/src/lib.rs.
pub mod Run
pub mod Query
pub mod Modes
pub mod Errors
pub mod Refined
pub mod Suffix
pub mod Saved
pub mod Link
pub mod Buffer
pub mod Released
pub mod Statement
pub mod Surfaces
mod Tests
mod SurfaceTests
