-- ===== src/Calls.antt =====
-- Calls of the exports of the wasm module in rust/assets/hep-viewer.js: the methods of `PlotDocument`
-- and `SvgRender`, the functions for fonts, and the functions that the wasm side imports.
pub mod Machine
pub mod Access
pub mod Document
pub mod Fonts
pub mod Imports
pub mod Methods
pub mod Keeps
pub mod Balanced
pub mod Runs
pub mod Loaded
pub mod Given
pub mod Received
pub mod Arrays
pub mod Written
pub mod Imported
mod Tests
