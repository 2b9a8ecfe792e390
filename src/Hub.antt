-- ===== src/Hub.antt =====
-- pkg/shinzohub: the registrations of views that the hub announces, and their bundles.
pub mod Events
pub mod Lcd
pub mod Hydration
pub mod Dispatch
pub mod Listener
mod Tests
