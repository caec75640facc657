-- ===== src/App.antt =====
-- The page of rust/assets/app.html: it shows the plots of the HTTP server of the extension.
pub mod Location
pub mod Page
pub mod Steps
pub mod Tidy
pub mod Overlap
pub mod Polling
pub mod Overtaken
pub mod Arrival
mod Tests
