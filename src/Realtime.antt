-- ===== src/Realtime.antt =====
-- The real-time server, back-end/src/realtime.
pub mod Limits
pub mod Awareness
pub mod UpdateLog
pub mod DocManager
pub mod Bridge
pub mod Snapshot
pub mod Gateway
