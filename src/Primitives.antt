-- ===== src/Primitives.antt =====
-- 02-modern-cpp/exercises/ex2-type-safe-primitives/primitives.hpp.
pub mod Int64
pub mod Price
pub mod Quantity
pub mod Order
pub mod Symbols
mod Tests
