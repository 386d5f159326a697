-- ===== src/Examples.antt =====
-- The services in concrete form, and runs of the program on them.
pub mod Services
pub mod Tables
pub mod Realtime
pub mod Presence
pub mod Canvas
pub mod Boards
pub mod Upkeep
pub mod Numbers
pub mod Sessions
pub mod Routes
pub mod Accounts
pub mod Camera
pub mod Strokes
pub mod Clipboard
