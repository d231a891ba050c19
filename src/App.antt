-- ===== src/App.antt =====
-- srad-app
pub mod Metrics
pub mod Payloads
pub mod Events
pub mod Resequencer
pub mod Rebirth
pub mod Device
pub mod Node
pub mod Messages
pub mod Application
pub mod Subscriptions
pub mod EventLoop
pub mod Client
mod Tests
