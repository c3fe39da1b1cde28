-- ===== src/Patterns.antt =====
-- The small object patterns: the flyweight factory of circles, the pool of objects, and the goroutines
-- that wait on a condition variable.
pub mod Flyweight
pub mod Pool
pub mod Condition
pub mod Tests
pub mod ConditionTests
