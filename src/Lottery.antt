-- ===== src/Lottery.antt =====
-- cmd/design/lottery/demo/demo.go: the lottery service, its repository over MongoDB, and the bets and
-- draws that it records.
pub mod Repository
pub mod Service
pub mod Program
pub mod Warehouse
pub mod Tests
pub mod WarehouseTests
