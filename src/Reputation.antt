-- ===== src/Reputation.antt =====
-- internal/stores/sqlite/ip_reputation.go: strikes and blocks of sending addresses, with the two
-- tables of internal/sqlitedb/schema.
pub mod Store
pub mod Rejection
pub mod Legitimate
pub mod Blocks
pub mod Cleanup
