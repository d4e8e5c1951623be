-- ===== src/Stellar.antt =====
-- crates/stellar_adapter: payment requests and their confirmation over Horizon.
pub mod Types
pub mod Client
pub mod Parser
pub mod Provider
pub mod Confirms
pub mod Search
pub mod Requests
pub mod Tests
