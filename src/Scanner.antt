-- ===== src/Scanner.antt =====
-- The memory scanner of src/scanner, a module for each part.
pub mod Predicate
pub mod Value
pub mod Memory
pub mod Engine
pub mod Next
