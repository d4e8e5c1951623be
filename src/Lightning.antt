-- ===== src/Lightning.antt =====
-- crates/lightning_node, part by part.
pub mod Gateway
pub mod Qr
pub mod Proof
pub mod Access
pub mod Node
pub mod Main
pub mod Funding
pub mod Config
pub mod Connect
pub mod Mock
mod Tests
