-- ===== src/Generics.antt =====
-- cmd/fanxing/fanxing.go: generic addition, slices and a map with methods.

pub mod Slices
pub mod Sums
pub mod DemoStruct
pub mod TypeSets
pub mod Tests
