-- ===== src/Glue.antt =====
-- The table through which the wasm module of rust/assets/hep-viewer.js holds JavaScript values.
pub mod Heap
pub mod FreeList
pub mod Adding
pub mod Passing
pub mod Owned
pub mod FreedOnce
mod Tests
