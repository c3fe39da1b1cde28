-- ===== src/Orders.antt =====
-- The order programs over Redis: an order as a hash, orders ranked by amount, orders indexed by customer
-- and by product, the log of an order's actions, and the script that adds to an order's amount.
pub mod Hash
pub mod Script
pub mod Sets
pub mod Ranking
pub mod ActionLog
pub mod Tests
pub mod HashTests
pub mod LogTests
