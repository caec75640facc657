-- ===== src/Boot.antt =====
-- The start of the wasm module in rust/assets/hep-viewer.js: `__wbg_init`, `__wbg_load`, and the
-- views of its memory.
pub mod Init
pub mod Once
pub mod Memory
pub mod Views
pub mod Text
pub mod Arrives
pub mod Decoding
pub mod Encoding
pub mod Toy
mod Tests
mod TextTests
