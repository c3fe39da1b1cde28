-- ===== src/RedisDemos.antt =====
-- The demos of Redis commands under cmd/redis that decide something of their own.
pub mod Leaderboard
pub mod Scan
pub mod Values
pub mod Events
pub mod Tests
