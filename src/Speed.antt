-- ===== src/Speed.antt =====
-- The speed control of src/speed*.rs, a module for each file.
pub mod Clock
pub mod Timers
pub mod Config
pub mod Controls
pub mod Session
pub mod Hotkeys
pub mod Input
pub mod Coordinator
pub mod Preview
pub mod Commands
pub mod Window
pub mod Identity
pub mod Policy
