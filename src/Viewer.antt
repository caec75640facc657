-- ===== src/Viewer.antt =====
-- Class `PlotView` of rust/assets/hep-viewer.js: the view that draws one plot document.
pub mod Host
pub mod State
pub mod Draw
pub mod Theme
pub mod Asked
pub mod Lifecycle
pub mod Invariant
pub mod Safety
pub mod History
pub mod Fresh
pub mod Drawn
pub mod Keeps
pub mod Themed
pub mod Picking
pub mod Picked
pub mod Released
pub mod Getters
pub mod Fonts
mod Tests
mod PickingTests
mod FontTests
