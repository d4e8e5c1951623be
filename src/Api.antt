-- ===== src/Api.antt =====
-- crates/api_server: sessions, token issuance, the payment watcher and the routes.
pub mod Env
pub mod Config
pub mod Sessions
pub mod Access
pub mod Watcher
pub mod Routes
pub mod System
pub mod Boot
pub mod Interleaved
pub mod Serve
pub mod Tests
