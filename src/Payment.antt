-- ===== src/Payment.antt =====
-- The payment programs under cmd/design/strategy and cmd/design/decorator: two versions of the
-- strategy pattern and two of the decorator pattern over the same discounts.
pub mod Floats
pub mod Tracker
pub mod Strategy
pub mod PlainStrategy
pub mod Decorator
pub mod PlainDecorator
pub mod Tests
