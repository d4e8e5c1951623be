-- ===== src/Token.antt =====
-- crates/access_token: tokens, their signature and their verification.
pub mod Types
pub mod Env
pub mod Sign
pub mod Verify
pub mod Compact
pub mod RoundTrip
pub mod Authentic
pub mod Demo
pub mod Tests
