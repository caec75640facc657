-- ===== src/Entry.antt =====
-- tools/hep-viewer/entry.js, the entry point of the viewer bundle: it loads the wasm module and
-- the fonts once, and renders documents.
pub mod Base64
pub mod Loader
pub mod Loading
pub mod Render
pub mod Build
pub mod Script
pub mod Built
mod Tests
mod BuildTests
