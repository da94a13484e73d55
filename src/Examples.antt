-- ===== src/Examples.antt =====
-- The test data and runs of the theorems on it, a module for each part of the program.
pub mod Data
pub mod Clock
pub mod Controls
pub mod Session
pub mod Coordinator
pub mod Lifecycle
pub mod Scanner
pub mod Next
pub mod Values
pub mod Commands
pub mod Policy
pub mod Analysis
