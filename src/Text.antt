-- ===== src/Text.antt =====
-- What the crates use of `str` and `u64` from Rust's standard library: `trim`,
-- `trim_end_matches`, `eq_ignore_ascii_case`, `to_lowercase`, `splitn(2, ..)`, `Display for u64` and
-- `parse::<u64>`.
pub mod Trim
pub mod Cut
pub mod Case
pub mod Split
pub mod Decimal
